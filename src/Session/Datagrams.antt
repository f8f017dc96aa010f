-- ===== src/Session/Datagrams.antt =====
-- protocol/session.rs: `read_datagram`, `recv_datagram`, `send_datagram`, and
-- `export_keying_material`.
use pywebtransport.Base.{
  ℕ, ◌/◌, not, ◌||◌, none, List, [], ◌∷◌, ◌++◌, ltb, leb, if◌then◌else◌, length,
}
use pywebtransport.Base.Word.{saturating_sub}
use pywebtransport.Common.{Bytes, Text, text, ErrorSource, RequestId}
use pywebtransport.Events.{
  Effect, notify_request_done, notify_request_failed, send_h3_datagram, export_tls_keying_material,
  datagram, nothing,
}
use pywebtransport.Session.Defs.{Session, is_open, is_connecting, session_failure, state_failure}
use pywebtransport.Utils.Varint.{varint_size, put_u8, put_u64}

unfoldable pub take_datagram : Session → RequestId → List Bytes → Session × List Effect
take_datagram s request_id [] =
    (record s { pending_datagram_requests = s.pending_datagram_requests ++ request_id ∷ [] }, [])
take_datagram s request_id (d ∷ rest) =
    (record s { pending_datagrams = rest }, notify_request_done request_id (datagram d) ∷ [])

-- A session that is not ready yet keeps its datagrams.
unfoldable pub read_datagram : Session → RequestId → Session × List Effect
unfolding take_datagram
read_datagram s request_id =
    if not (is_open s.state)
    then (s, state_failure request_id ∷ [])
    else take_datagram s request_id (if is_connecting s.state then [] else s.pending_datagrams)

unfoldable pub give_datagram : Session → Bytes → List RequestId → Session × List Effect
give_datagram s d [] =
    if leb s.max_pending_datagrams (length s.pending_datagrams)
    then (s, [])
    else (record s { pending_datagrams = s.pending_datagrams ++ d ∷ [] }, [])
give_datagram s d (request_id ∷ rest) = (
  record s { pending_datagram_requests = rest },
  notify_request_done request_id (datagram d) ∷ [],
)

unfoldable pub recv_datagram : Session → Bytes → Session × List Effect
unfolding give_datagram
recv_datagram s d =
    if not (is_open s.state)
    then (s, [])
    else give_datagram s d (if is_connecting s.state then [] else s.pending_datagram_requests)

unfoldable pub send_datagram : Session → RequestId → Bytes → ℕ → List Effect
send_datagram s request_id d peer_max_datagram_frame_size =
    let header_size = varint_size (s.id / 4) in
    let max_allowed_payload = saturating_sub peer_max_datagram_frame_size header_size in
    if not (is_open s.state)
    then state_failure request_id ∷ []
    else if ltb max_allowed_payload (length d)
    then notify_request_failed request_id ErrorSource.datagram none
        (text "wt_datagram validate exceeded")
      ∷ []
    else send_h3_datagram s.id d ∷ notify_request_done request_id nothing ∷ []

unfoldable pub export_keying_material : Session → RequestId → Text → Bytes → ℕ → List Effect
export_keying_material s request_id label context size =
    if not (is_open s.state) || is_connecting s.state
    then state_failure request_id ∷ []
    else if ltb 255 (length label) || ltb 255 (length context)
    then session_failure request_id none (text "wt_session validate invalid") ∷ []
    else export_tls_keying_material request_id (text "EXPORTER-WebTransport")
        (put_u64 s.id ++ (put_u8 (length label) ++ (label ++ (put_u8 (length context) ++ context))))
        size
      ∷ []

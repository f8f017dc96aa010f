-- ===== src/Connection/Routing/Streams.antt =====
-- protocol/connection.rs: the methods that name a stream.
use pywebtransport.Base.{ℕ, Bool, ◌&&◌, Option, none, some, List, [], ◌∷◌, if◌then◌else◌, is_empty}
use pywebtransport.Base.Maps.{lookup}
use pywebtransport.Common.{Bytes, F64, text, ErrorCode, RequestId, SessionId, StreamId}
use pywebtransport.Connection.Defs.{Connection, unresolved_stream}
use pywebtransport.Events.{Effect, notify_request_done, nothing}
use pywebtransport.Session.Close
use pywebtransport.Session.Flow
use pywebtransport.Session.Peer
use pywebtransport.Connection.Routing.{with_session, with_stream, unchanged}

unfoldable pub complete_stream_write : Connection → StreamId → Connection × List Effect
complete_stream_write c stream_id =
    with_stream c stream_id (λ s. Flow.complete_stream_write s stream_id) (c, [])

unfoldable pub diagnose_found :
    Connection → StreamId → RequestId → Option SessionId → Connection × List Effect
diagnose_found c stream_id request_id none = (c, unresolved_stream request_id ∷ [])
diagnose_found c stream_id request_id (some session_id) =
    with_session c session_id (unchanged (λ s. Peer.diagnose_stream s stream_id request_id))
      (c, unresolved_stream request_id ∷ [])

unfoldable pub diagnose_stream : Connection → StreamId → RequestId → Connection × List Effect
unfolding diagnose_found
diagnose_stream c stream_id request_id =
    diagnose_found c stream_id request_id (lookup stream_id c.stream_map)

unfoldable pub handle_stream_data_acknowledged : Connection → StreamId → Connection × List Effect
handle_stream_data_acknowledged c stream_id =
    with_stream c stream_id (λ s. Peer.handle_stream_data_acknowledged s stream_id) (c, [])

unfoldable pub read_stream : Connection → StreamId → RequestId → ℕ → Connection × List Effect
read_stream c stream_id request_id max_bytes =
    with_stream c stream_id (λ s. Peer.read_stream s stream_id request_id max_bytes)
      (c, unresolved_stream request_id ∷ [])

-- What a reset of a session's own stream does.
unfoldable pub abort_session : Connection → StreamId → ErrorCode → F64 → Connection × List Effect
abort_session c stream_id error_code now =
    with_session c stream_id (λ s. Close.abort s error_code (text "wt_session abort") now) (c, [])

unfoldable pub recv_stop_sending :
    Connection → StreamId → ErrorCode → F64 → Connection × List Effect
recv_stop_sending c stream_id error_code now =
    with_stream c stream_id (λ s. Peer.recv_stop_sending s stream_id error_code)
      (abort_session c stream_id error_code now)

unfoldable pub recv_stream_data :
    Connection → StreamId → Bytes → Bool → F64 → Connection × List Effect
recv_stream_data c stream_id bytes fin now =
    with_stream c stream_id (λ s. Peer.recv_stream_data s stream_id bytes fin now) (c, [])

unfoldable pub recv_stream_reset :
    Connection → StreamId → ErrorCode → F64 → Connection × List Effect
recv_stream_reset c stream_id error_code now =
    with_stream c stream_id (λ s. Peer.recv_stream_reset s stream_id error_code)
      (abort_session c stream_id error_code now)

unfoldable pub reset_stream :
    Connection → StreamId → RequestId → ErrorCode → Connection × List Effect
reset_stream c stream_id request_id error_code =
    with_stream c stream_id (λ s. Peer.reset_stream s stream_id request_id error_code)
      (c, notify_request_done request_id nothing ∷ [])

unfoldable pub stop_stream :
    Connection → StreamId → RequestId → ErrorCode → Connection × List Effect
stop_stream c stream_id request_id error_code =
    with_stream c stream_id (λ s. Peer.stop_stream s stream_id request_id error_code)
      (c, notify_request_done request_id nothing ∷ [])

unfoldable pub write_stream :
    Connection → StreamId → RequestId → Bytes → Bool → Connection × List Effect
write_stream c stream_id request_id bytes end_stream =
    with_stream c stream_id (λ s. Flow.write_stream s stream_id request_id bytes end_stream)
      (
        c,
        (if is_empty bytes && end_stream
              then notify_request_done request_id nothing
              else unresolved_stream request_id)
            ∷ [],
      )

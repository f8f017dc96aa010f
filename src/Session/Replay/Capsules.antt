-- ===== src/Session/Replay/Capsules.antt =====
-- protocol/session.rs: a capsule that is received in a session that is not connecting is not kept
-- for later.
use pywebtransport.Base.{ℕ, ◌≤◌, ◌≡◌, Bool, true, false, Option, some, length, take, drop, arith}
use pywebtransport.Common.{Bytes, ErrorCode, F64, Text, text, SessionState}
use pywebtransport.Common.Constants.{
  err_h3_frame_unexpected, err_h3_general_protocol_error, err_h3_message_error,
  err_wt_flow_control_error,
}
use pywebtransport.Session.Capsules.{
  recv_close, recv_data_blocked, recv_drain, recv_max_data, recv_max_streams_bidi,
  recv_max_streams_uni, recv_streams_blocked, dispatch_capsule, recv_capsule,
}
use pywebtransport.Session.Close.{finish, abort}
use pywebtransport.Session.Defs.{Session, is_connecting}
use pywebtransport.Session.Ended.{finish-IsEmptied}
use pywebtransport.Session.Replay.{
  credit-Keeps, streams_credit-Keeps, flush_blocked_writes-Keeps, flush_requests-Keeps,
}
use pywebtransport.Utils.Varint.{Result, ok, err, read_varint, be_value}

abbrev Shrinks : Session → Session → Type 0
Shrinks s t = length t.pending_capsules ≤ length s.pending_capsules

finish-Shrinks :
    (s : Session) (code : Option ErrorCode) (reason : Option Text) (now : F64)
    (state : SessionState)
    → Shrinks s (finish s code reason now state).0
finish-Shrinks s code reason now state =
    let f = (finish-IsEmptied s code reason now state).0.no_capsule in ground (arith, f)

abort-Shrinks :
    (s : Session) (code : ErrorCode) (reason : Text) (now : F64)
    → Shrinks s (abort s code reason now).0
unfolding abort
abort-Shrinks s code reason now =
    ground (arith, finish-Shrinks s (some code) (some reason) now SessionState.closed)

module _ (s : Session) (now : F64) where
  recv_close-Shrinks : (value : Bytes) → Shrinks s (recv_close s value now).0
  unfolding recv_close
  recv_close-Shrinks value = ground (
    arith,
    finish-Shrinks s (some (be_value 0 (take 4 value))) (some (drop 4 value)) now
        SessionState.closed,
    abort-Shrinks s err_h3_message_error (text "wt_capsule validate invalid") now,
    abort-Shrinks s err_h3_message_error (text "wt_capsule validate exceeded") now,
  )

  recv_data_blocked-Shrinks : Shrinks s (recv_data_blocked s).0
  unfolding recv_data_blocked
  recv_data_blocked-Shrinks = ground (arith, credit-Keeps s true)

  recv_drain-Shrinks : Shrinks s (recv_drain s).0
  unfolding recv_drain
  recv_drain-Shrinks = ground arith

  recv_max_data-Shrinks : (r : Result (ℕ × Bytes)) → Shrinks s (recv_max_data s r now).0
  unfolding recv_max_data
  recv_max_data-Shrinks (err code) =
      abort-Shrinks s err_h3_general_protocol_error (text "varint decode invalid") now
  recv_max_data-Shrinks (ok (n, rest)) = ground (
    arith,
    abort-Shrinks s err_wt_flow_control_error (text "wt_session validate failed") now,
    flush_blocked_writes-Keeps (record s { peer_max_data = n }),
  )

  recv_max_streams_bidi-Shrinks :
      (r : Result (ℕ × Bytes)) → Shrinks s (recv_max_streams_bidi s r now).0
  unfolding recv_max_streams_bidi
  recv_max_streams_bidi-Shrinks (err code) =
      abort-Shrinks s err_h3_general_protocol_error (text "varint decode invalid") now
  recv_max_streams_bidi-Shrinks (ok (n, rest)) = ground (
    arith,
    abort-Shrinks s err_wt_flow_control_error (text "wt_session validate exceeded") now,
    abort-Shrinks s err_wt_flow_control_error (text "wt_session validate failed") now,
    flush_requests-Keeps (record s { peer_max_streams_bidi = n }) false,
  )

  recv_max_streams_uni-Shrinks :
      (r : Result (ℕ × Bytes)) → Shrinks s (recv_max_streams_uni s r now).0
  unfolding recv_max_streams_uni
  recv_max_streams_uni-Shrinks (err code) =
      abort-Shrinks s err_h3_general_protocol_error (text "varint decode invalid") now
  recv_max_streams_uni-Shrinks (ok (n, rest)) = ground (
    arith,
    abort-Shrinks s err_wt_flow_control_error (text "wt_session validate exceeded") now,
    abort-Shrinks s err_wt_flow_control_error (text "wt_session validate failed") now,
    flush_requests-Keeps (record s { peer_max_streams_uni = n }) true,
  )

  recv_streams_blocked-Shrinks :
      (uni : Bool) (r : Result (ℕ × Bytes)) → Shrinks s (recv_streams_blocked s uni r now).0
  unfolding recv_streams_blocked
  recv_streams_blocked-Shrinks uni (err code) =
      abort-Shrinks s err_h3_general_protocol_error (text "varint decode invalid") now
  recv_streams_blocked-Shrinks uni (ok (n, rest)) = ground (
    arith,
    abort-Shrinks s err_wt_flow_control_error (text "wt_session validate exceeded") now,
    streams_credit-Keeps s uni true,
  )

  dispatch_capsule-Shrinks :
      (kind : ℕ) (value : Bytes) → Shrinks s (dispatch_capsule s kind value now).0
  unfolding dispatch_capsule
  dispatch_capsule-Shrinks kind value =
      let r = read_varint value in
      ground (
        arith,
        recv_close-Shrinks value,
        recv_data_blocked-Shrinks,
        recv_drain-Shrinks,
        recv_max_data-Shrinks r,
        abort-Shrinks s err_h3_frame_unexpected (text "wt_session validate failed") now,
        recv_max_streams_bidi-Shrinks r,
        recv_max_streams_uni-Shrinks r,
        recv_streams_blocked-Shrinks false r,
        recv_streams_blocked-Shrinks true r,
      )

  pub recv_capsule-Shrinks :
      (kind : ℕ) (value : Bytes)
      → is_connecting s.state ≡ false
      → length (recv_capsule s kind value now).0.pending_capsules ≤ length s.pending_capsules
  unfolding recv_capsule
  recv_capsule-Shrinks kind value e = ground (arith, dispatch_capsule-Shrinks kind value)

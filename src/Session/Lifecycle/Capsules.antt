-- ===== src/Session/Lifecycle/Capsules.antt =====
-- protocol/session.rs: `recv_capsule` moves the state of a session forward only.
use pywebtransport.Base.{ℕ, ◌≤◌, Bool, true, false, some, take, drop, arith}
use pywebtransport.Common.{Bytes, F64, text, SessionState}
use pywebtransport.Common.Constants.{
  err_h3_excessive_load, err_h3_frame_unexpected, err_h3_general_protocol_error,
  err_h3_message_error, err_wt_flow_control_error,
}
use pywebtransport.Session.Capsules.{
  recv_close, recv_data_blocked, recv_drain, recv_max_data, recv_max_streams_bidi,
  recv_max_streams_uni, recv_streams_blocked, dispatch_capsule, buffer_capsule, recv_capsule,
}
use pywebtransport.Session.Defs.{Session}
use pywebtransport.Session.Ended.{finish-IsEmptied}
use pywebtransport.Session.Lifecycle.{Advances, rank, rank-le, abort-Advances}
use pywebtransport.Session.Replay.{
  credit-Keeps, streams_credit-Keeps, flush_blocked_writes-Keeps, flush_requests-Keeps,
}
use pywebtransport.Utils.Varint.{Result, ok, err, read_varint, be_value}

module _ (s : Session) (now : F64) where
  recv_close-Advances : (value : Bytes) → Advances s (recv_close s value now).0
  unfolding recv_close
  recv_close-Advances value = ground (
    arith,
    (finish-IsEmptied s (some (be_value 0 (take 4 value))) (some (drop 4 value)) now
        SessionState.closed).1,
    rank-le s.state,
    abort-Advances s err_h3_message_error (text "wt_capsule validate invalid") now,
    abort-Advances s err_h3_message_error (text "wt_capsule validate exceeded") now,
  )

  recv_data_blocked-Advances : Advances s (recv_data_blocked s).0
  unfolding recv_data_blocked
  recv_data_blocked-Advances = ground (arith, credit-Keeps s true)

  recv_drain-Advances : Advances s (recv_drain s).0
  unfolding recv_drain
  recv_drain-Advances = ground arith

  recv_max_data-Advances : (r : Result (ℕ × Bytes)) → Advances s (recv_max_data s r now).0
  unfolding recv_max_data
  recv_max_data-Advances (err code) =
      abort-Advances s err_h3_general_protocol_error (text "varint decode invalid") now
  recv_max_data-Advances (ok (n, rest)) = ground (
    arith,
    abort-Advances s err_wt_flow_control_error (text "wt_session validate failed") now,
    flush_blocked_writes-Keeps (record s { peer_max_data = n }),
  )

  recv_max_streams_bidi-Advances :
      (r : Result (ℕ × Bytes)) → Advances s (recv_max_streams_bidi s r now).0
  unfolding recv_max_streams_bidi
  recv_max_streams_bidi-Advances (err code) =
      abort-Advances s err_h3_general_protocol_error (text "varint decode invalid") now
  recv_max_streams_bidi-Advances (ok (n, rest)) = ground (
    arith,
    abort-Advances s err_wt_flow_control_error (text "wt_session validate exceeded") now,
    abort-Advances s err_wt_flow_control_error (text "wt_session validate failed") now,
    flush_requests-Keeps (record s { peer_max_streams_bidi = n }) false,
  )

  recv_max_streams_uni-Advances :
      (r : Result (ℕ × Bytes)) → Advances s (recv_max_streams_uni s r now).0
  unfolding recv_max_streams_uni
  recv_max_streams_uni-Advances (err code) =
      abort-Advances s err_h3_general_protocol_error (text "varint decode invalid") now
  recv_max_streams_uni-Advances (ok (n, rest)) = ground (
    arith,
    abort-Advances s err_wt_flow_control_error (text "wt_session validate exceeded") now,
    abort-Advances s err_wt_flow_control_error (text "wt_session validate failed") now,
    flush_requests-Keeps (record s { peer_max_streams_uni = n }) true,
  )

  recv_streams_blocked-Advances :
      (uni : Bool) (r : Result (ℕ × Bytes)) → Advances s (recv_streams_blocked s uni r now).0
  unfolding recv_streams_blocked
  recv_streams_blocked-Advances uni (err code) =
      abort-Advances s err_h3_general_protocol_error (text "varint decode invalid") now
  recv_streams_blocked-Advances uni (ok (n, rest)) = ground (
    arith,
    abort-Advances s err_wt_flow_control_error (text "wt_session validate exceeded") now,
    streams_credit-Keeps s uni true,
  )

  dispatch_capsule-Advances :
      (kind : ℕ) (value : Bytes) → Advances s (dispatch_capsule s kind value now).0
  unfolding dispatch_capsule
  dispatch_capsule-Advances kind value =
      let r = read_varint value in
      ground (
        arith,
        recv_close-Advances value,
        recv_data_blocked-Advances,
        recv_drain-Advances,
        recv_max_data-Advances r,
        abort-Advances s err_h3_frame_unexpected (text "wt_session validate failed") now,
        recv_max_streams_bidi-Advances r,
        recv_max_streams_uni-Advances r,
        recv_streams_blocked-Advances false r,
        recv_streams_blocked-Advances true r,
      )

  buffer_capsule-Advances :
      (kind : ℕ) (value : Bytes) → Advances s (buffer_capsule s kind value now).0
  unfolding buffer_capsule
  buffer_capsule-Advances kind value =
      ground
        (arith, abort-Advances s err_h3_excessive_load (text "wt_session validate exceeded") now)

  pub recv_capsule-Advances :
      (kind : ℕ) (value : Bytes) → rank s.state ≤ rank (recv_capsule s kind value now).0.state
  unfolding recv_capsule
  recv_capsule-Advances kind value =
      ground (arith, buffer_capsule-Advances kind value, dispatch_capsule-Advances kind value)

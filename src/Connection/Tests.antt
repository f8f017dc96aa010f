-- ===== src/Connection/Tests.antt =====
-- Runs of a connection at concrete inputs.
use pywebtransport.Base.{◌≤◌, ◌+◌, refl, Bool, true, false, none, some, List, [], ◌∷◌, arith, leb}
use pywebtransport.Common.{F64, text}
use pywebtransport.Connection.Calls.{
  Call, step, run, completes_handshake, receives_settings, opens_stream, receives_datagram,
  creates_session, binds_session, receives_headers, terminates, prunes_events,
}
use pywebtransport.Connection.Defs.{Connection, ConnectionParameters, SessionRequest, new}
use pywebtransport.Connection.Invariant.Steps.{
  Owes, FitsParameters, call-IsValid, calls_from_new-IsValid,
}
use pywebtransport.Connection.Invariant.Lifecycle.{Fits}
use pywebtransport.Connection.IsValid.{IsValid}
use pywebtransport.Connection.Order.{rank}
use pywebtransport.Connection.Order.Steps.{calls-Advances}
use pywebtransport.Events.Protocol.{H3Settings}

abbrev parameters : ConnectionParameters
parameters = record {
  early_event_ttl = 5;
  initial_max_data = 10;
  initial_max_streams_bidi = 1;
  initial_max_streams_uni = 1;
  max_connection_pending_events = 3;
  max_pending_capsules = 2;
  max_pending_datagrams = 2;
  max_pending_streams = 2;
  max_session_pending_events = 2;
  max_sessions = 2;
  max_write_buffer_size = 10;
  session_receive_window = 10;
}

parameters-FitsParameters : FitsParameters parameters
parameters-FitsParameters = ground arith

-- The comparison of time stamps, where they are read as whole seconds.
abbrev is_fresh : F64 → F64 → F64 → Bool
is_fresh now timestamp ttl = leb now (timestamp + ttl)

abbrev fresh : Connection
fresh = new 1 (some 9) true parameters

abbrev settings : H3Settings
settings = record {
  enable_connect_protocol = some 1;
  h3_datagram = some 1;
  max_field_section_size = none;
  qpack_blocked_streams = none;
  qpack_max_table_capacity = none;
  unknown = [];
  wt_enabled = some 1;
  wt_initial_max_data = some 20;
  wt_initial_max_streams_bidi = some 2;
  wt_initial_max_streams_uni = none;
}

settings-Fits : Fits settings
settings-Fits = ground arith

abbrev request : SessionRequest
request = record {
  authority = text "example.org";
  created_at = 1;
  headers = [];
  optimistic = false;
  path = text "/";
  wt_available_protocols = none;
}

-- A session is asked for, one of its streams and a datagram arrive before the answer does, the answer
-- comes, and the connection ends.
abbrev history : List Call
history =
    receives_settings settings 0
    ∷ completes_handshake 0
    ∷ creates_session 3 request
    ∷ binds_session 0 3
    ∷ opens_stream 0 1 1
    ∷ receives_datagram 0 (7 ∷ []) 1
    ∷ opens_stream 4 5 1
    ∷ prunes_events 2
    ∷ receives_headers 0 ((text ":status", text "200") ∷ []) 2
    ∷ prunes_events 9
    ∷ terminates 0 (text "bye") 9
    ∷ []

calls_from_new-IsValid_example : IsValid (run is_fresh fresh history).0
unfolding Owes new
calls_from_new-IsValid_example =
    calls_from_new-IsValid is_fresh 1 (some 9) true parameters history parameters-FitsParameters
      ((refl, settings-Fits), (tt, (tt, (tt, (tt, (tt, (tt, (tt, (tt, (tt, (tt, tt)))))))))))

-- An open connection at which a stream and a datagram wait for a session.
abbrev waiting : Connection
waiting =
    (run is_fresh fresh
      (receives_settings settings 0 ∷ completes_handshake 0 ∷ opens_stream 0 1 1 ∷ [])).0

waiting-IsValid : IsValid waiting
unfolding Owes new
waiting-IsValid =
    calls_from_new-IsValid is_fresh 1 (some 9) true parameters
      (receives_settings settings 0 ∷ completes_handshake 0 ∷ opens_stream 0 1 1 ∷ [])
      parameters-FitsParameters ((refl, settings-Fits), (tt, (tt, tt)))

call-IsValid_example : IsValid (step is_fresh waiting (receives_datagram 0 (7 ∷ []) 2)).0
unfolding Owes
call-IsValid_example =
    call-IsValid is_fresh waiting (receives_datagram 0 (7 ∷ []) 2) tt waiting-IsValid

calls-Advances_example : rank fresh.state ≤ rank (run is_fresh fresh history).0.state
calls-Advances_example = calls-Advances is_fresh fresh history

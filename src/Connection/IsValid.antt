-- ===== src/Connection/IsValid.antt =====
-- protocol/connection.rs: what holds of a connection between two calls.
use pywebtransport.Base.{ℕ, ◌+◌, ◌≤◌, ◌<◌, ◌^◌, ◌≡◌, ◌⊎◌, true, length}
use pywebtransport.Base.Maps.Sizes.{Every, Distinct, total}
use pywebtransport.Connection.Defs.{Connection}
use pywebtransport.Connection.Early.{Buffer}
use pywebtransport.Connection.Requests.{active_limit}
use pywebtransport.Session.IsValid.{IsValid as IsValidSession}

-- A buffer within the limit for a session.
abbrev pub IsWithin : ℕ → Buffer → Type 0
IsWithin limit events = length events ≤ limit

pub record IsValid (c : Connection) : Type 0 where
  -- The early events: every session has one buffer, the count is that of the buffered events, and
  -- the limits of the connection and of a session are kept.
  pub one_buffer : Distinct c.early_event_buffer
  pub counted : c.early_event_count ≡ total c.early_event_buffer
  pub early_limit : c.early_event_count ≤ c.max_connection_pending_events
  pub session_limit : Every (IsWithin c.max_session_pending_events) c.early_event_buffer
  pub early_limit_u64 : c.max_connection_pending_events < 2 ^ 64
  -- The sessions: each is valid, and with the requests for more they are within the limit, if there
  -- is one. Only a client has requests.
  pub sessions_valid : Every IsValidSession c.sessions
  pub active :
      (active_limit c ≡ 0) ⊎ (length c.sessions + length c.session_requests ≤ active_limit c)
  pub server : (c.is_client ≡ true) ⊎ (length c.session_requests ≡ 0)
  -- The limits that sessions start with are 64-bit numbers, and those of the peer are zero until its
  -- settings arrive.
  pub local_data : c.initial_max_data < 2 ^ 64
  pub local_bidi : c.initial_max_streams_bidi < 2 ^ 64
  pub local_uni : c.initial_max_streams_uni < 2 ^ 64
  pub peer_data : c.peer_initial_max_data < 2 ^ 64
  pub peer_bidi : c.peer_initial_max_streams_bidi < 2 ^ 64
  pub peer_uni : c.peer_initial_max_streams_uni < 2 ^ 64
  pub unsettled :
      (c.peer_settings_received ≡ true)
      ⊎ ((c.peer_initial_max_data ≡ 0)
          × (c.peer_initial_max_streams_bidi ≡ 0)
          × (c.peer_initial_max_streams_uni ≡ 0))

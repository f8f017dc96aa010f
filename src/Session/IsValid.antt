-- ===== src/Session/IsValid.antt =====
-- protocol/session.rs: the flow control invariant of a session.
use pywebtransport.Base.{◌≤◌, ◌<◌, ◌^◌, ◌≡◌, ◌⊎◌, false, length}
use pywebtransport.Session.Defs.{Session, is_open}

pub record IsValid (s : Session) : Type 0 where
  -- Under flow control the data sent is within the limit of the peer, the data received within the
  -- local limit unless the session has ended, and so for the streams of both kinds.
  pub sent : (s.flow_control_negotiated ≡ false) ⊎ (s.data_sent ≤ s.peer_max_data)
  pub received :
      (s.flow_control_negotiated ≡ false)
      ⊎ (is_open s.state ≡ false)
      ⊎ (s.data_received ≤ s.local_max_data)
  pub peer_bidi :
      (s.flow_control_negotiated ≡ false) ⊎ (s.peer_streams_bidi_opened ≤ s.local_max_streams_bidi)
  pub peer_uni :
      (s.flow_control_negotiated ≡ false) ⊎ (s.peer_streams_uni_opened ≤ s.local_max_streams_uni)
  pub local_bidi :
      (s.flow_control_negotiated ≡ false) ⊎ (s.local_streams_bidi_opened ≤ s.peer_max_streams_bidi)
  pub local_uni :
      (s.flow_control_negotiated ≡ false) ⊎ (s.local_streams_uni_opened ≤ s.peer_max_streams_uni)
  -- The queues.
  pub datagrams : length s.pending_datagrams ≤ s.max_pending_datagrams
  pub capsules : length s.pending_capsules ≤ s.max_pending_capsules
  pub early_streams : length s.pending_streams ≤ s.max_pending_streams
  -- The limits are 64-bit numbers.
  pub peer_max_data_u64 : s.peer_max_data < 2 ^ 64
  pub local_max_data_u64 : s.local_max_data < 2 ^ 64
  pub local_max_bidi_u64 : s.local_max_streams_bidi < 2 ^ 64
  pub local_max_uni_u64 : s.local_max_streams_uni < 2 ^ 64
  pub peer_max_bidi_u64 : s.peer_max_streams_bidi < 2 ^ 64
  pub peer_max_uni_u64 : s.peer_max_streams_uni < 2 ^ 64

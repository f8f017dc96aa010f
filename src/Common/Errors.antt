-- ===== src/Common/Errors.antt =====
-- crates/src/common/error.rs: the errors of the crate.
use pywebtransport.Base.{Option}
use pywebtransport.Common.{ErrorCode, StreamId, Text}

pub data WebTransportError : Type 0 where
  configuration : Option ErrorCode → Text → WebTransportError
  protocol : Option ErrorCode → Text → WebTransportError
  stream : StreamId → Option ErrorCode → Text → WebTransportError
  unknown : Option ErrorCode → Text → WebTransportError

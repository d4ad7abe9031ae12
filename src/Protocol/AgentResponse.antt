-- ===== src/Protocol/AgentResponse.antt =====
-- protocol/hologram.pb.go: the message `AgentResponse`.
use hologram.Prelude.{Option, none, some}
use hologram.Protocol.Responses.{Success, Failure}

pub record AgentResponse : Type 0 where
  pub success : Option Success
  pub failure : Option Failure

unfoldable pub get_success : Option AgentResponse → Option Success
get_success none = none
get_success (some m) = m.success

unfoldable pub get_failure : Option AgentResponse → Option Failure
get_failure none = none
get_failure (some m) = m.failure

-- ===== src/Protocol/Message.antt =====
-- protocol/hologram.pb.go: the top-level message.
use hologram.Prelude.{Option, none, some, String}
use hologram.Protocol.Ping.{Ping}
use hologram.Protocol.ServerRequest.{ServerRequest}
use hologram.Protocol.ServerResponse.{ServerResponse}
use hologram.Protocol.AgentRequest.{AgentRequest}
use hologram.Protocol.AgentResponse.{AgentResponse}
use hologram.Protocol.Responses.{Success, Failure}

pub data Source : Type 0 where
  other hologram_server hologram_client hologram_cli : Source

pub record Message : Type 0 where
  pub error : Option String
  pub source : Option Source
  pub ping : Option Ping
  pub server_request : Option ServerRequest
  pub server_response : Option ServerResponse
  pub agent_request : Option AgentRequest
  pub agent_response : Option AgentResponse
  pub success : Option Success
  pub failure : Option Failure

-- `&protocol.Message{}`
abbrev pub empty_message : Message
empty_message = record {
  error = none;
  source = none;
  ping = none;
  server_request = none;
  server_response = none;
  agent_request = none;
  agent_response = none;
  success = none;
  failure = none;
}

unfoldable pub get_error : Option Message → String
get_error none = ""
get_error (some m) = elim m.error [ none ↦ "" | some s ↦ s ]

unfoldable pub get_source : Option Message → Source
get_source none = other
get_source (some m) = elim m.source [ none ↦ other | some s ↦ s ]

unfoldable pub get_ping : Option Message → Option Ping
get_ping none = none
get_ping (some m) = m.ping

unfoldable pub get_server_request : Option Message → Option ServerRequest
get_server_request none = none
get_server_request (some m) = m.server_request

unfoldable pub get_server_response : Option Message → Option ServerResponse
get_server_response none = none
get_server_response (some m) = m.server_response

unfoldable pub get_agent_request : Option Message → Option AgentRequest
get_agent_request none = none
get_agent_request (some m) = m.agent_request

unfoldable pub get_agent_response : Option Message → Option AgentResponse
get_agent_response none = none
get_agent_response (some m) = m.agent_response

unfoldable pub get_success : Option Message → Option Success
get_success none = none
get_success (some m) = m.success

unfoldable pub get_failure : Option Message → Option Failure
get_failure none = none
get_failure (some m) = m.failure

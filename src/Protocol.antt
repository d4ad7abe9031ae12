-- ===== src/Protocol.antt =====
-- protocol/: the messages of the Hologram protocol (hologram.pb.go), their framing on a byte stream
-- (wire.go) and the connection that handlers see (handlers.go).
pub mod Ping
pub mod Requests
pub mod ServerRequest
pub mod Responses
pub mod ServerResponse
pub mod AgentRequest
pub mod AgentResponse
pub mod Message
pub mod Enums
pub mod Connection
pub mod Wire
pub mod MessageConnection

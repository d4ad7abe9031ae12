-- ===== src/Server/Handler.antt =====
-- server/server.go, in parts: the state and the messages, the challenge, the three requests, and the
-- loop over a connection. The other modules prove what these parts do.
pub mod State
pub mod Challenge
pub mod Requests
pub mod Loop
mod Sending
pub mod Provenance
pub mod Halting
pub mod Authenticity
pub mod AddKey

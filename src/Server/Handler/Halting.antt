-- ===== src/Server/Handler/Halting.antt =====
-- The loops of server/server.go end: each round but the last takes a message off the connection.
mod Rules
pub mod Challenge
mod Requests
pub mod Connection

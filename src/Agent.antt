-- ===== src/Agent.antt =====
-- agent/: the workstation's side. The signer (ssh.go), the client of the server (client.go), the holder
-- of the credentials (credentials_expiration_manager.go), the handler of the command line's requests
-- (cli_handler.go) and the metadata service (metadata_service.go).
pub mod Session
pub mod Signing
pub mod Client
pub mod Assembly
pub mod Expiration
pub mod CliHandler
pub mod Metadata

-- ===== src/Cmd/Server.antt =====
-- cmd/hologram-server: the program that runs the server.
pub mod Configuration
pub mod Merging
pub mod Ticker
pub mod Starting
pub mod Events
pub mod Launch
pub mod Debugging
pub mod Remembering
pub mod Granting

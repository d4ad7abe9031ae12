-- ===== src/Cmd.antt =====
-- cmd/: the programs. Cli is `hologram`, Authorize `hologram-authorize`, Server `hologram-server`, Agent
-- `hologram-agent`, Boot `hologram-boot` and Ping `hologram-ping`.
pub mod Exit
pub mod Cli
pub mod Authorize
pub mod Server
pub mod Agent
pub mod Boot
pub mod Ping

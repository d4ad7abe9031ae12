-- ===== src/Tests.antt =====
-- The theorems at concrete inputs.
mod Fixtures
mod Wire
mod Log
mod Channels
mod Credentials
mod Handler
mod UserCache
mod Sharing
mod PersistentLdap
mod Agent
mod Metadata
mod Assembly
mod Commands
mod AgentProgram
mod ServerProgram
mod Handshake
mod Refusal
mod Workstation
mod Saving

-- ===== src/Server.antt =====
-- server/: the user cache (usercache.go), the connection to LDAP (persistent_ldap.go), the credential
-- service (credentials.go) and the connection handler over them (server.go).
pub mod Types
pub mod Credentials
pub mod PersistentLdap
pub mod UserCache
pub mod Handler
pub mod Assembly

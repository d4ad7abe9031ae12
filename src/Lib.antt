-- ===== src/Lib.antt =====
-- Verification of Hologram, which hands out temporary AWS credentials to workstations.
--
-- The program has two sides. The server (server/) takes connections, lets a client prove by an SSH
-- signature who it is (server.go's `SSHChallenge`, against the users that usercache.go reads from
-- LDAP through persistent_ldap.go), and asks AWS STS for credentials (credentials.go). The agent
-- (agent/) takes requests of the command line (cli_handler.go), asks the server for credentials
-- (client.go) with signatures made in ssh.go, keeps them (credentials_expiration_manager.go) and
-- serves them as the EC2 metadata service (metadata_service.go). The two sides exchange the
-- messages of protocol/hologram.pb.go, framed on a byte stream by protocol/wire.go.
--
-- - Prelude.antt and Prelude/: numbers, lists, texts, Go's results, panics and maps, base64 both
--   ways.
-- - Log.antt: log/log.go and log/mux.go. Log/Sinks.antt: log/terminal.go and log/syslog.go.
-- - Protocol/Ping, Requests, ServerRequest, Responses, ServerResponse, AgentRequest, AgentResponse
--   and Message: the messages and their getters; a pointer is an `Option`. Protocol/Enums: the names
--   of the enums.
-- - Protocol/Wire.antt and Protocol/Wire/: `Read` and `Write`. `read_message` takes a stream of
--   segments, `write_message` a script of what the calls of the writer return. Wire/Channels.antt:
--   `Channelize`, a step relation of its two goroutines.
-- - Protocol/Connection.antt: `MessageReadWriteCloser`, as handlers see it: a script of what the
--   peer sends and of what writes return, with what was sent. Protocol/MessageConnection.antt:
--   `messageConnection` over the streams.
-- - Server/Types.antt: what the parts of server/ share. Server/Credentials.antt: `BuildARN`,
--   `AssumeRole`. Server/UserCache.antt: `Update`, `Authenticate`. Server/PersistentLdap.antt:
--   `Refresh`, `Search`, `Modify`. Server/Handler/: server.go, in State (messages, counters),
--   Challenge (`SSHChallenge`), Requests (`HandleServerRequest`) and Loop (`HandleConnection`).
--   Server/Assembly.antt: `New`, with the implementations in place of the interfaces.
--   Server/UserCache/Origin.antt: users and groups that come from the directory.
-- - Agent/Signing.antt: `SSHSign`, `SSHSetAgentSock`. Agent/Client.antt: `requestCredentials` and
--   the two clients; Client/Creation.antt: `NewClient` and `AccessKeyClient`.
--   Agent/Expiration.antt: `GetCredentials`. Agent/CliHandler.antt: `HandleConnection`.
--   Agent/Metadata.antt: the HTTP handlers; Metadata/Routes.antt: their routes and the life of the
--   service. Agent/Assembly.antt: the handlers of the agent over one state.
-- - Transport.antt: the accept loop, `Close` and the constructors of transport/local and
--   transport/remote.
-- - Cmd/: the programs of cmd/. Cli is `hologram`, Authorize `hologram-authorize`, Server
--   `hologram-server` (Configuration: config.go and the flags; Ticker: the timeout; Starting:
--   `main` up to the server that is online; Events: signals and ticks), Agent `hologram-agent`
--   (Events: what arrives, and signals), Boot `hologram-boot` and Ping `hologram-ping`. The
--   children named EndToEnd put a program against the handler that answers it.
-- - Handshake.antt and Handshake/: a whole session of agent/client.go with server/server.go, in
--   which each side reads what the other sends; Refusal.antt: one in which all keys are refused;
--   Workstation.antt: from the command line through the agent and the server to the metadata
--   service.
-- - Tests/: the theorems at concrete inputs.
--
-- A body that may panic or loop is a function from a state to an outcome and a state
-- (Prelude/Go.antt). The world behind an interface is a type `W`, and the interface a record of
-- functions on it. Loops run on fuel. Each round of a connection's loop but the last takes a
-- message, so the number of messages and one more is enough; the loops of `Read` and `Write` use up
-- a segment or a result in each round, and two more are enough. The loop of `hologram-boot` needs
-- one round more than there are failures, and the accept loop of a server never ends, so its rounds
-- say how far it is followed.
--
-- Not modelled: golang/protobuf's marshalling, package ssh, LDAP, STS, the ssh-agent, JSON, MD5,
-- TLS and the order of a loop over a map, which are parameters; reads that return bytes together
-- with an error; log lines and times sent to statsd; concurrency between the connections of a
-- program, whose handlers run one after the other; waiting on a connection, of which a script
-- stands for one that has ended; the message beside an error of `Unmarshal` where the reader
-- drops it (Wire/Channels keeps it); the generated certificates of transport/remote.
pub mod Prelude
pub mod Log
pub mod Protocol
pub mod Server
pub mod Agent
pub mod Cmd
pub mod Tests
pub mod Transport
pub mod Handshake

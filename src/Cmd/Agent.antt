-- ===== src/Cmd/Agent.antt =====
-- cmd/hologram-agent: the program that runs the agent.
pub mod Choice
pub mod Events
pub mod Keyed
pub mod Issuing
pub mod Failing
use hologram.Prelude.{
  ℕ, String, Bool, true, false, Option, none, some, List, [], ◌∷◌, str_eq, if◌then◌else◌,
}
use hologram.Prelude.Go.{Error, Bytes, Result, ok, err, ret, Go, pure, ◌>>=◌, ◌>>◌}
use hologram.Log
use hologram.Log.{set_debug_mode}
use hologram.Protocol.Message.{Message}
use hologram.Protocol.Connection.{Conn}
use hologram.Server.Types.{Signature}
use hologram.Server.Credentials.{Aliases}
use hologram.Transport.{Listener, Server}
use hologram.Agent.Client.{Client}
use hologram.Agent.Client.Creation.{Aws, new_client, new_access_key_client}
use hologram.Agent.Expiration.{Manager, beside, receiver, set_client}
use hologram.Agent.Metadata.Routes.{MetadataService, new_metadata_service}
use hologram.Agent.CliHandler
use hologram.Agent.CliHandler.{new_cli_handler}
use hologram.Cmd.Exit.{Started, exited, online}

pub record Config : Type 0 where
  pub host : String
  pub account_aliases : Aliases

pub record Flags : Type 0 where
  pub dial_address : String
  pub debug_mode : Bool
  pub config_file : String
  pub http_port : ℕ

-- What the program calls: the files, encoding/json, the listeners of packages net, `SSHSign` of
-- agent/ssh.go, the printing of messages, package remote's `NewClient`, and AWS.
pub record Environment (W : Type 0) : Type 0 where
  pub read_file : String → Result Bytes
  pub unmarshal : Bytes → Result Config
  pub listen_tcp : ℕ → Option Error
  pub listen_unix : String → Result (Listener Conn)
  pub sign : Bytes → ℕ → Go W (Result (Option Signature))
  pub show : Message → String
  pub dial : String → Go W (Result Conn)
  pub aws : Aws W

-- The program while it is online. `credentials_client` is the client that the expiration manager has.
pub record Online (W L : Type 0) : Type 0 where
  pub client : Client W
  pub credentials_client : Option (Client W)
  pub log : Log.Package L
  pub mds : MetadataService
  pub agent_server : Server Conn

-- The program on the way: the expiration manager, and the metadata service once it has been started.
pub record Booting (U : Type 0) : Type 0 where
  pub manager : Manager U
  pub serving : Option MetadataService

-- Before anything has been started.
abbrev pub booting : {U : Type 0} → Manager U → Booting U
booting m = record { manager = m; serving = none }

abbrev pub on_manager : {U A : Type 0} → Go (Manager U) A → Go (Booting U) A
on_manager f b = let (o, m) = f b.manager in (o, record b { manager = m })

-- `mds.Start()`
abbrev pub start_metadata : {U : Type 0} → MetadataService → Go (Booting U) (Unit {0})
start_metadata mds b = (ret tt, record b { serving = some mds })

abbrev pub socket_path : String
socket_path = "/var/run/hologram.sock"

-- Flags take precedence.
unfoldable pub resolve : Flags → Config → Config
resolve flags config =
    if str_eq flags.dial_address "" then config else record config { host = flags.dial_address }

module _ {U : Type 0} (env : Environment U) where
  abbrev pub server_client : String → Client (Manager U)
  server_client host =
      new_client (λ challenge skip. beside (env.sign challenge skip)) env.show
        (λ address. beside (env.dial address)) host receiver

  -- AWS, which leaves the manager alone.
  abbrev pub aws : Aws (Manager U)
  aws = record {
    sts = record {
      assume_role = λ input. beside (env.aws.sts.assume_role input);
      get_session_token = beside env.aws.sts.get_session_token;
    };
    get_user = beside env.aws.get_user;
  }

  unfoldable pub client_for : Config → Go (Manager U) (Client (Manager U))
  client_for config =
      if str_eq config.host ""
      then new_access_key_client aws receiver (some config.account_aliases)
      else pure (server_client config.host)

module _ {U L : Type 0} (env : Environment U) where
  abbrev pub with_handler :
      Flags
      → Log.Package L
      → Client (Manager U)
      → Result (Server Conn)
      → Started (Online (Manager U) L)
  with_handler flags log client (err e) = exited 1
  with_handler flags log client (ok server) = online (record {
    client = client;
    credentials_client = set_client client none;
    log = log;
    mds = new_metadata_service flags.http_port;
    agent_server = server;
  })

  abbrev pub with_client :
      Flags → Log.Package L → Client (Manager U) → Started (Online (Manager U) L)
  with_client flags log client =
      with_handler flags log client
        (CliHandler.start env.listen_unix (new_cli_handler socket_path client))

  abbrev pub with_listener :
      Flags
      → Log.Package L
      → Config
      → Option Error
      → Go (Booting U) (Started (Online (Manager U) L))
  with_listener flags log config (some e) = pure (exited 1)
  with_listener flags log config none = do
    start_metadata (new_metadata_service flags.http_port)
    client ← on_manager (client_for env config)
    pure (with_client flags log client)

  abbrev pub with_config :
      Flags → Log.Package L → Result Config → Go (Booting U) (Started (Online (Manager U) L))
  with_config flags log (err e) = pure (exited 1)
  with_config flags log (ok file) =
      with_listener flags log (resolve flags file) (env.listen_tcp flags.http_port)

  abbrev pub with_file :
      Flags → Log.Package L → Result Bytes → Go (Booting U) (Started (Online (Manager U) L))
  with_file flags log (err e) = pure (exited 1)
  with_file flags log (ok contents) = with_config flags log (env.unmarshal contents)

  abbrev pub with_debug : Bool → Log.Package L → Log.Package L
  with_debug flag log = if flag then set_debug_mode true log else log

  -- `main`, up to the message that the agent is online.
  unfoldable pub start : Flags → Log.Package L → Go (Booting U) (Started (Online (Manager U) L))
  start flags log =
      with_file flags (with_debug flags.debug_mode log) (env.read_file flags.config_file)

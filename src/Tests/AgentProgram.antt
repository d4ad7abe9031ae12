-- ===== src/Tests/AgentProgram.antt =====
-- The theorems on cmd/hologram-agent at concrete inputs.
use hologram.Prelude.{ℕ, ◌+◌, ◌≡◌, refl, String, false, some, none, List, [], ◌∷◌, Option, All}
use hologram.Prelude.Go.{Bytes, ok, err, ret, Go, ◌>>=◌}
use hologram.Prelude.Text.{split}
use hologram.Protocol.Connection.{Conn}
use hologram.Protocol.Message.{Message, empty_message}
use hologram.Log
use hologram.Protocol.Connection
use hologram.Protocol.Message
use hologram.Protocol.AgentRequest
use hologram.Protocol.Requests
use hologram.Server.Credentials
use hologram.Agent.Expiration
use hologram.Agent.Metadata
use hologram.Prelude.Dict.{lookup}
use hologram.Server.Credentials.{AssumeRoleInput}
use hologram.Transport.{new_local_server}
use hologram.Agent.CliHandler
use hologram.Agent.Client.Creation.{
  IamUser, new_access_key_client, new_direct_session_token_service,
}
use hologram.Agent.Expiration.{Manager, new_manager, set_client}
use hologram.Agent.Metadata.{SecurityCredentialsResponse}
use hologram.Agent.Metadata.Routes.{credentials_path, serve_request, route_request, route}
use hologram.Agent.Assembly.{Web, connection, request, handle}
use hologram.Agent.Assembly.Answers.{Answered}
use hologram.Cmd.Agent.{
  Config, Flags, Environment, Online, Booting, booting, server_client, client_for, resolve, start,
}
use hologram.Cmd.Agent.Choice.{IsChosen, start-IsChosen}
use hologram.Cmd.Agent.Events.{Event, arrives, terminate, take_event, serve}
use hologram.Cmd.Agent.Keyed.{key_client, IsIssued, IsUser}
use hologram.Cmd.Agent.Issuing.{program, start-issues}
use hologram.Cmd.Exit.{online}
use hologram.Tests.Fixtures.{creds, noon}
use hologram.Tests.Agent.{command_line}

abbrev alice : IamUser
alice = record { arn = some "arn:aws:iam::123:user/alice"; user_name = some "alice" }

-- The address is in the file only.
abbrev with_host : Config
with_host = record { host = "hologram:3100"; account_aliases = [] }

abbrev without_host : Config
without_host = record { host = ""; account_aliases = [] }

abbrev environment : Config → Option IamUser → Environment ℕ
environment config user = record {
  read_file = λ path. ok (1 ∷ []);
  unmarshal = λ bytes. ok config;
  listen_tcp = λ port. none;
  listen_unix = λ path. ok (record { accepts = []; closed = false });
  sign = λ challenge skip u. (ret (ok none), u);
  show = λ m. "message";
  dial = λ address u. (ret (err "connection refused"), u);
  aws = record {
    sts = record {
      assume_role = λ input u. (ret (ok (some creds)), u + 1);
      get_session_token = λ u. (ret (err "denied"), u);
    };
    get_user = λ u. (ret (user, none), u + 1);
  };
}

abbrev flags : Flags
flags = record {
  dial_address = "";
  debug_mode = false;
  config_file = "/etc/hologram/agent.json";
  http_port = 80;
}

abbrev log : Log.Package ℕ
log = record { internal_log = record { sinks = []; debug_mode = false }; debug_mode = false }

abbrev by_server : Online (Manager ℕ) ℕ
by_server = record {
  client = server_client (environment with_host none) "hologram:3100";
  credentials_client = some (server_client (environment with_host none) "hologram:3100");
  log = log;
  mds = record { listener_port = 80; closed = false };
  agent_server = record { s = record { accepts = []; closed = false }; handed = [] };
}

abbrev by_server_booted : Booting ℕ
by_server_booted = record { manager = new_manager 0; serving = some by_server.mds }

by_server_starts :
    start (environment with_host none) flags log (booting (new_manager 0))
    ≡ (ret (online by_server), by_server_booted)
unfolding start client_for resolve ◌>>=◌ CliHandler.start new_local_server set_client
by_server_starts = refl

start-IsChosen_example :
    (contents : Bytes) × (file : Config) × (ok (1 ∷ []) ≡ ok contents)
    × (ok with_host ≡ ok file)
    × (by_server.credentials_client ≡ some by_server.client)
    × (by_server_booted.serving ≡ some by_server.mds)
    × IsChosen
        (environment with_host none)
        flags
        (new_manager 0)
        file
        by_server.client
        by_server_booted.manager
start-IsChosen_example =
    start-IsChosen (environment with_host none) flags (new_manager 0) log by_server by_server_booted
      by_server_starts

-- The state in which an agent stands that got no user from AWS.
abbrev half_started : Booting ℕ
half_started = record {
  manager = new_manager 1;
  serving = some (record { listener_port = 80; closed = false });
}

abbrev web : Web ℕ
web = record {
  now = λ u. noon;
  format = λ t. "2014-10-24T12:00:00Z";
  marshal_json = λ r. ok (123 ∷ 125 ∷ []);
  clean = λ path. path;
}

abbrev ignore_sock : String → Option Bytes → Go ℕ (Unit {0})
ignore_sock sock key u = (ret tt, u)

abbrev by_key : Online (Manager ℕ) ℕ
by_key = record {
  client = key_client (environment without_host (some alice)) "123" "alice" (some []);
  credentials_client =
      some (key_client (environment without_host (some alice)) "123" "alice" (some []));
  log = log;
  mds = record { listener_port = 80; closed = false };
  agent_server = record { s = record { accepts = []; closed = false }; handed = [] };
}

abbrev by_key_booted : Booting ℕ
by_key_booted = record { manager = new_manager 1; serving = some by_key.mds }

by_key_starts :
    start (environment without_host (some alice)) flags log (booting (new_manager 0))
    ≡ (ret (online by_key), by_key_booted)
unfolding start client_for resolve ◌>>=◌ CliHandler.start new_local_server set_client
    new_access_key_client split
by_key_starts = refl

-- `hologram use engineer`, a request for the credentials, and the end.
abbrev events : List Event
events =
    arrives (connection command_line.conn) ∷ arrives (request credentials_path) ∷ terminate ∷ []

start-issues_example :
    (account : String) × (name : String) × IsUser
      (environment without_host (some alice))
      account
      name
    × All
        (Answered
          (IsIssued (environment without_host (some alice)).aws.sts account name (some []))
          web)
        (serve ignore_sock by_key.client web events
          (program log by_key_booted.manager)).1.running.answers
start-issues_example =
    start-issues (environment without_host (some alice)) flags web ignore_sock log 0 by_key
      by_key_booted (1 ∷ []) without_host events by_key_starts refl refl refl refl

-- The request is answered with the document.
events_answered :
    (serve ignore_sock by_key.client web events (program log (new_manager 1))).1.running.answers
    ≡ (credentials_path, record { status = 200; headers = []; body = 123 ∷ 125 ∷ [] }) ∷ []
unfolding serve ◌>>=◌ take_event handle CliHandler.handle_connection CliHandler.handle_next
    Connection.read Connection.write Message.get_agent_request AgentRequest.get_assume_role
    AgentRequest.get_ssh_agent_sock AgentRequest.get_ssh_key_file Requests.get_role
    Credentials.assume_role Credentials.arn_of Expiration.set_credentials Expiration.get_credentials
    Expiration.maybe_refresh_credentials Expiration.before Metadata.get_credentials serve_request
    route_request route lookup new_direct_session_token_service Connection.close
events_answered = refl

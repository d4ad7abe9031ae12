-- ===== src/Handshake/Workstation.antt =====
-- The whole way of credentials: `hologram use` asks the agent, the agent's client asks the server, the
-- expiration manager keeps what the server sends, and the metadata service gives it out.
use hologram.Prelude.{ℕ, ◌≡◌, refl, ap, Option, none, some, String, false, List, [], ◌∷◌, map}
use hologram.Prelude.Go.{Bytes, Result, ok, ret, Go, ◌>>=◌}
use hologram.Protocol.Message.{Message}
use hologram.Protocol.Responses
use hologram.Protocol.Connection.{Conn}
use hologram.Server.Types.{Signature, User, Credentials, Time}
use hologram.Server.Handler.State.{Settings, Services}
use hologram.Agent.Client.{Client, client}
use hologram.Agent.Expiration
use hologram.Agent.Expiration.{
  Manager, receiver, set_credentials, before, maybe_refresh_credentials,
}
use hologram.Agent.Metadata
use hologram.Agent.Metadata.{SecurityCredentialsResponse, Response}
use hologram.Agent.Metadata.Routes.{credentials_path, serve_request, route_request, route}
use hologram.Prelude.Dict.{lookup}
use hologram.Cmd.Cli.{Surroundings, Formats, ssh_key_file, use_role}
use hologram.Cmd.Cli.EndToEnd.{fresh, after_agent, use_role-agent}
use hologram.Handshake.{client_says}
use hologram.Handshake.Server.{conn_with, Agrees}
use hologram.Handshake.Client.{arrived}
use hologram.Handshake.Session.{role_request, server_run, session-stores}

-- The manager once credentials for a role have been stored.
abbrev pub storing : {U : Type 0} → Manager U → Credentials → String → Manager U
storing m creds role = record m { creds = some creds; role = role }

-- The credentials that STS gives out.
abbrev pub issued : String → String → String → Time → Credentials
issued id secret token expiration = record {
  access_key_id = some id;
  secret_access_key = some secret;
  session_token = some token;
  expiration = some expiration;
}

-- Over the wire an expiration is cut to seconds.
abbrev pub whole_seconds : Time → Time
whole_seconds t = record { seconds = t.seconds; nanoseconds = 0 }

stores :
    {U : Type 0} (creds : Credentials) (role : String) (m : Manager U)
    → set_credentials (some creds) role m ≡ (ret tt, storing m creds role)
unfolding set_credentials
stores creds role m = refl

module _ {U : Type 0} (now : U → Time) (agent_client : Client (Manager U)) (clean : String → String)
    (format : Time → String) (marshal_json : SecurityCredentialsResponse → Result Bytes) where
  -- A request to the metadata service of the agent.
  unfoldable pub metadata : String → Go (Manager U) Response
  metadata path =
      serve_request (Expiration.get_credentials now (some agent_client)) (λ m. now m.world) format
        marshal_json clean path

  -- The document for credentials that have arrived from the server, at this time.
  abbrev pub document : U → String → String → String → Time → SecurityCredentialsResponse
  document u id secret token expiration = record {
    code = "Success";
    last_updated = format (now u);
    type = "AWS-HMAC";
    access_key_id = id;
    secret_access_key = secret;
    token = token;
    expiration = format (whole_seconds expiration);
  }

  -- At the time of `u` the manager holds what has arrived.
  abbrev pub holding : Manager U → String → String → String → Time → String → U → Manager U
  holding m id secret token expiration role u =
      record (storing m (arrived (issued id secret token expiration) expiration) role) { world = u }

  metadata_serves :
      (m : Manager U) (id secret token : String) (expiration : Time) (role : String) (u : U)
      (body : Bytes)
      → clean credentials_path ≡ credentials_path
      → before (whole_seconds expiration) (now u) ≡ false
      → marshal_json (document u id secret token expiration) ≡ ok body
      → metadata credentials_path (holding m id secret token expiration role u) ≡ (
        ret (record { status = 200; headers = []; body = body }),
        holding m id secret token expiration role u,
      )
  unfolding metadata serve_request route_request route Metadata.get_credentials
      Expiration.get_credentials maybe_refresh_credentials ◌>>=◌ Responses.get_access_key_id
      Responses.get_secret_access_key Responses.get_access_token Responses.get_expiration lookup
  metadata_serves m id secret token expiration role u body c unexpired json =
      rw c (rw unexpired (rw json refl))

module _ {Key U W C : Type 0} (settings : Settings) (services : Services Key W)
    (sign : Bytes → ℕ → Go (Manager U) (Result (Option Signature))) (show : Message → String)
    (dial : Go (Manager U) (Result Conn)) (now : U → Time) (clean : String → String)
    (format : Time → String) (marshal_json : SecurityCredentialsResponse → Result Bytes)
    (env : Surroundings) (formats : Formats) (dial_agent : Go C (Result Conn))
    (set_agent_sock : String → Option Bytes → Go (Manager U) (Unit {0})) where
  -- The client that the agent runs with.
  abbrev pub agent_client : Client (Manager U)
  agent_client = client sign show receiver dial

  -- The whole way of credentials. If the agent's client plays a session with the server in which the
  -- server accepts one of its keys and STS grants the role, and every program reads what its peer
  -- writes, then `hologram use` reports success, the agent's manager holds the credentials, with the
  -- expiration in whole seconds, for the role, and at any time before they expire the metadata
  -- service answers a request for them with just the document made of them.
  pub metadata-use_role :
      (sigs : List Signature) (last : Signature) (user : User Key) (role id secret token : String)
      (expiration : Time) (drawn : ℕ) (counters : List String) (m0 m1 m m' : Manager U) (w : W)
      {w' w'' : W} (c c' : C) (u : U) (body : Bytes)
      → set_agent_sock (env.getenv "SSH_AUTH_SOCK") (ssh_key_file env) m0 ≡ (ret tt, m1)
      → Agrees services sign last user m' w' sigs 0 drawn m w
      → services.credentials.assume_role user role settings.enable_ldap_roles w'
        ≡ (ret (ok (some (issued id secret token expiration))), w'')
      → dial m1 ≡ (
        ret (
            ok (
              conn_with
                (map ok
                  (server_run settings services
                    (role_request role ∷ client_says sigs last)
                    drawn
                    counters
                    w).1.conn.sent)
                [])),
        m,
      )
      → dial_agent c ≡ (
        ret (
            ok (
              fresh
                (map ok (after_agent env formats role set_agent_sock agent_client m0).conn.sent))),
        c',
      )
      → clean credentials_path ≡ credentials_path
      → before (whole_seconds expiration) (now u) ≡ false
      → marshal_json
          (document now agent_client clean format marshal_json u id secret token expiration)
        ≡ ok body
      → (use_role env formats dial_agent role c ≡ (ret none, c'))
        × ((after_agent env formats role set_agent_sock agent_client m0).world
            ≡ storing m' (arrived (issued id secret token expiration) expiration) role)
        × ((metadata now agent_client clean format marshal_json credentials_path
              (record (after_agent env formats role set_agent_sock agent_client m0).world {
                world = u;
              })).0
            ≡ ret (record { status = 200; headers = []; body = body }))
  metadata-use_role sigs last user role id secret token expiration drawn counters m0 m1 m m' w {w'}
        {w''} c c' u body sock plays granted d a clean_path fresh_at json =
      let (ended, kept, said, got) =
        session-stores settings services sign show receiver dial sigs last user role
          (issued id secret token expiration) expiration drawn counters m1 m w plays granted refl
          (stores _ _ m') d in
      let (held, asked, result) =
        use_role-agent env formats role dial_agent set_agent_sock agent_client none c c' sock got
          a in
      (
        result,
        held,
        rw held (
            ap (λ x. x.0)
              (metadata_serves now agent_client clean format marshal_json m' id secret token
                expiration role u body clean_path fresh_at json)),
      )

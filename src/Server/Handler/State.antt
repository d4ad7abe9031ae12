-- ===== src/Server/Handler/State.antt =====
-- server/server.go: the state machine of a connection. Its state is the connection, the numbers drawn
-- from math/rand, the counters sent to statsd and the world `W` behind the interfaces.
use hologram.Prelude.{ℕ, ◌+◌, String, Bool, Option, none, some, List, [], ◌∷◌, ◌++◌, length}
use hologram.Prelude.Go.{Error, Bytes, Result, ret, Go, pure, panics, ◌>>=◌, ◌>>◌}
use hologram.Protocol.Ping
use hologram.Protocol.Ping.{Ping}
use hologram.Protocol.Responses.{ssh_verification_failure, success}
use hologram.Protocol.ServerResponse.{ServerResponse}
use hologram.Protocol.Message.{Message, empty_message}
use hologram.Protocol.Connection
use hologram.Protocol.Connection.{Conn}
use hologram.Server.Types.{Time, Credentials, LdapImplementation, UserCache, CredentialService}

-- The fields of `server` that hold settings.
pub record Settings : Type 0 where
  pub default_role : String
  pub user_attr : String
  pub ssh_attr : String
  pub base_dn : String
  pub enable_ldap_roles : Bool
  pub default_role_attr : String

pub record State (W : Type 0) : Type 0 where
  pub conn : Conn
  pub drawn : ℕ
  pub counters : List String
  pub world : W

-- The fields of `server` that hold its collaborators. The authenticator is the user cache (`New`).
pub record Services (Key W : Type 0) : Type 0 where
  pub user_cache : UserCache Key W
  pub credentials : CredentialService Key W
  pub ldap_server : LdapImplementation W
  pub rand_int : ℕ → ℕ

abbrev pub empty_response : ServerResponse
empty_response = record {
  challenge = none;
  verification_failure = none;
  credentials = none;
  token_request = none;
}

abbrev pub response_message : ServerResponse → Message
response_message r = record empty_message { server_response = some r }

-- The messages that the handler sends.
abbrev pub pong : Message
pong = record empty_message { ping = some (record { type = some Ping.response }) }

abbrev pub error_message : String → Message
error_message text = record empty_message { error = some text }

abbrev pub success_message : Message
success_message = record empty_message { success = some success }

abbrev pub challenge_message : Bytes → Message
challenge_message bytes =
    response_message
      (record empty_response { challenge = some (record { challenge = some bytes }) })

abbrev pub failure_message : Message
failure_message =
    response_message
      (record empty_response { verification_failure = some ssh_verification_failure })

abbrev pub creds_message : Credentials → Time → Message
creds_message creds expiration = response_message (record empty_response {
  credentials = some (record {
    access_key_id = creds.access_key_id;
    secret_access_key = creds.secret_access_key;
    access_token = creds.session_token;
    expiration = some expiration.seconds;
  });
})

module _ {W : Type 0} where
  -- Fuel for a loop that takes a message off the connection in each round but the last.
  abbrev pub fuel_for : State W → ℕ
  fuel_for s = length s.conn.incoming + 1

  -- `m.Read()`, `m.Write(msg)` and `m.Close()`
  abbrev pub receive : Go (State W) (Result Message)
  receive s = let (r, c) = Connection.read s.conn in (ret r, record s { conn = c })

  abbrev pub send : Message → Go (State W) (Option Error)
  send msg s = let (e, c) = Connection.write msg s.conn in (ret e, record s { conn = c })

  abbrev pub hang_up : Go (State W) (Option Error)
  hang_up s = let (e, c) = Connection.close s.conn in (ret e, record s { conn = c })

  -- `sm.stats.Counter(1.0, name, 1)`
  abbrev pub counter : String → Go (State W) (Unit {0})
  counter name s = (ret tt, record s { counters = s.counters ++ name ∷ [] })

  abbrev pub outside : {A : Type 0} → Go W A → Go (State W) A
  outside m s = let (o, w) = m s.world in (o, record s { world = w })

  abbrev pub with_expiration : Credentials → Option Time → Go (State W) Message
  with_expiration creds none = panics
  with_expiration creds (some expiration) = pure (creds_message creds expiration)

  -- `makeCredsResponse`: both the credentials and their expiration are read through a pointer.
  unfoldable pub make_creds_response : Option Credentials → Go (State W) Message
  make_creds_response none = panics
  make_creds_response (some creds) = with_expiration creds creds.expiration

  unfoldable pub handle_ping : Ping → Go (State W) (Unit {0})
  handle_ping p = do counter "messages.ping"; _ ← send pong; pure tt

  unfoldable pub write_error : String → Go (State W) (Unit {0})
  write_error text = do _ ← send (error_message text); pure tt

-- ===== src/Agent/Client.antt =====
-- agent/client.go: `client`, which gets credentials from the server, and `accessKeyClient`, which gets
-- them from STS directly.
pub mod Ends
pub mod Creation
use hologram.Prelude.{
  ℕ, zero, suc, ◌+◌, String, ◌<>◌, Bool, true, false, Option, none, some, List, [], ◌∷◌, length,
  str_eq, if◌then◌else◌,
}
use hologram.Prelude.Go.{
  Error, Bytes, Result, ok, err, Outcome, ret, out_of_fuel, Go, pure, continue, ◌>>=◌,
}
use hologram.Protocol.Requests.{GetUserCredentials, get_user_credentials}
use hologram.Protocol.ServerRequest.{ServerRequest}
use hologram.Protocol.ServerResponse
use hologram.Protocol.ServerResponse.{ServerResponse}
use hologram.Protocol.Responses
use hologram.Protocol.Responses.{SshChallenge, SshVerificationFailure, StsCredentials}
use hologram.Protocol.Message
use hologram.Protocol.Message.{Message, empty_message}
use hologram.Protocol.Connection.{Conn}
use hologram.Server.Types.{Signature, Time, Credentials, User, CredentialService}
use hologram.Agent.Session.{Session, receive, send, outside}

-- `CredentialsReceiver`; its `SetClient` only ties the two objects together.
pub record CredentialsReceiver (W : Type 0) : Type 0 where
  pub set_credentials : Option Credentials → String → Go W (Unit {0})

-- `Client`
pub record Client (W : Type 0) : Type 0 where
  pub assume_role : String → Go W (Option Error)
  pub get_user_credentials : Go W (Option Error)

abbrev pub empty_request : ServerRequest
empty_request = record {
  assume_role = none;
  challenge_response = none;
  token_response = none;
  user_credentials = none;
  add_ssh_key = none;
}

abbrev pub request_message : ServerRequest → Message
request_message r = record empty_message { server_request = some r }

abbrev pub signature_message : Signature → Message
signature_message signature = request_message (record empty_request {
  challenge_response = some (record { signature = signature.blob; format = some signature.format });
})

-- The credentials of a response, and `time.Unix(expiration, 0)`.
abbrev pub received_creds : StsCredentials → Credentials
received_creds r = record {
  access_key_id = some (Responses.get_access_key_id (some r));
  secret_access_key = some (Responses.get_secret_access_key (some r));
  session_token = some (Responses.get_access_token (some r));
  expiration = some (record { seconds = Responses.get_expiration (some r); nanoseconds = 0 });
}

-- How a turn of the loop ends: with the number of keys to skip in the next one, or with the loop's
-- result.
pub data Turn : Type 0 where
  next : ℕ → Turn
  done : Option Error → Turn

-- []byte(challenge)
abbrev pub bytes_of : Option Bytes → Bytes
bytes_of none = []
bytes_of (some bytes) = bytes

-- `sign` is ssh.go's `SSHSign`, `show` formats a message as `%v` does, and `dial` is the package
-- remote's `NewClient`.
module _ {W : Type 0} (sign : Bytes → ℕ → Go W (Result (Option Signature)))
    (show : Message → String) (receiver : CredentialsReceiver W) (dial : Go W (Result Conn)) where
  abbrev pub unexpected : Message → Turn
  unexpected msg = done (some ("unexpected message from server: " <> show msg))

  abbrev pub after_answer : ℕ → Option Error → Go (Session W) Turn
  after_answer skip (some e) = pure (done (some e))
  after_answer skip none = pure (next skip)

  abbrev pub answer : ℕ → Result (Option Signature) → Go (Session W) Turn
  answer skip (err e) = pure (done (some e))
  answer skip (ok none) = pure (done (some "No keys worked"))
  answer skip (ok (some signature)) = send (signature_message signature) >>= after_answer skip

  abbrev pub handle_response :
      ℕ
      → String
      → Message
      → Option SshChallenge
      → Option StsCredentials
      → Option SshVerificationFailure
      → Go (Session W) Turn
  handle_response skip role msg (some c) r f =
      outside (sign (bytes_of (Responses.get_challenge (some c))) skip) >>= answer skip
  handle_response skip role msg none (some r) f =
      outside (receiver.set_credentials (some (received_creds r)) role) >>= λ _. pure (done none)
  handle_response skip role msg none none (some f) = pure (next (skip + 1))
  handle_response skip role msg none none none = pure (unexpected msg)

  abbrev pub handle_other : Message → Turn
  handle_other msg =
      if str_eq (Message.get_error (some msg)) ""
      then unexpected msg
      else done (some (Message.get_error (some msg)))

  abbrev pub handle_server : ℕ → String → Message → Option ServerResponse → Go (Session W) Turn
  handle_server skip role msg none = pure (handle_other msg)
  handle_server skip role msg (some r) =
      handle_response skip role msg (ServerResponse.get_challenge (some r))
        (ServerResponse.get_credentials (some r)) (ServerResponse.get_verification_failure (some r))

  abbrev pub handle_read : ℕ → String → Result Message → Go (Session W) Turn
  handle_read skip role (err e) = pure (done (some e))
  handle_read skip role (ok msg) =
      handle_server skip role msg (Message.get_server_response (some msg))

  unfoldable pub turn : ℕ → String → Go (Session W) Turn
  turn skip role = receive >>= handle_read skip role

  abbrev pub after_turn : (ℕ → Go (Session W) (Option Error)) → Turn → Go (Session W) (Option Error)
  after_turn again (next skip) = again skip
  after_turn again (done e) = pure e

  unfoldable pub request_loop : ℕ → String → ℕ → Go (Session W) (Option Error)
  request_loop zero role skip s = (out_of_fuel, s)
  request_loop (suc fuel) role skip s = (turn skip role >>= after_turn (request_loop fuel role)) s

  -- Each turn but the last takes a message.
  abbrev pub run_loop : String → Go (Session W) (Option Error)
  run_loop role s = request_loop (length s.conn.incoming + 1) role 0 s

  abbrev pub after_request : String → Option Error → Go (Session W) (Option Error)
  after_request role (some e) = pure (some e)
  after_request role none = run_loop role

  unfoldable pub converse : ServerRequest → String → Go (Session W) (Option Error)
  converse req role = send (request_message req) >>= after_request role

  abbrev pub with_conn : ServerRequest → String → Result Conn → Go W (Option Error)
  with_conn req role (err e) w = (ret (some e), w)
  with_conn req role (ok conn) w =
      let (o, s) = converse req role (record { conn = conn; world = w }) in (o, s.world)

  unfoldable pub request_credentials : ServerRequest → String → Go W (Option Error)
  request_credentials req role = dial >>= with_conn req role

  -- `client.AssumeRole` and `client.GetUserCredentials`
  abbrev pub client : Client W
  client = record {
    assume_role = λ role.
        request_credentials
          (record empty_request { assume_role = some (record { user = none; role = some role }) })
          role;
    get_user_credentials =
        request_credentials (record empty_request { user_credentials = some get_user_credentials })
          "";
  }

module _ {Key W : Type 0} (service : CredentialService Key W) (iam_username : String)
    (receiver : CredentialsReceiver W) where
  abbrev pub forward : String → Result (Option Credentials) → Go W (Option Error)
  forward role (err e) = pure (some e)
  forward role (ok response) = receiver.set_credentials response role >>= λ _. pure none

  -- `accessKeyClient.AssumeRole` and `accessKeyClient.GetUserCredentials`
  abbrev pub access_key_client : Client W
  access_key_client = record {
    assume_role = λ role.
        service.assume_role
          (record { username = iam_username; ssh_keys = []; arns = []; default_role = "" }) role
          false
        >>= forward role;
    get_user_credentials = service.get_session_token >>= forward "";
  }

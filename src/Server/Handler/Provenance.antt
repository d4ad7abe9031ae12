-- ===== src/Server/Handler/Provenance.antt =====
-- Where the credentials come from that server/server.go sends: what holds of each message.
mod Challenge
mod Requests
pub mod Connection
use hologram.Prelude.{
  ℕ, zero, suc, ◌≡◌, refl, Bool, true, false, inl, inr, String, Option, none, some, List, [], ◌∷◌,
  arith, All, Bool-cases, str_eq,
}
use hologram.Prelude.Go.{
  Error, Bytes, Result, ok, err, Outcome, ret, panic, out_of_fuel, Go, pure, ◌>>=◌,
}
use hologram.Prelude.Keeps.{
  Keeps, Ensures, Any, Keeps-pure, Keeps-panics, Keeps-fuel, Keeps-bind, Keeps-if, Ensures-Any,
}
use hologram.Protocol.Requests.{AssumeRole, GetUserCredentials, AddSshKey, SshChallengeResponse}
use hologram.Protocol.ServerRequest
use hologram.Protocol.ServerRequest.{ServerRequest}
use hologram.Protocol.Responses.{StsCredentials}
use hologram.Protocol.Message
use hologram.Protocol.Message.{Message}
use hologram.Protocol.Ping.{Ping}
use hologram.Server.Types.{
  SearchRequest, ModifyRequest, Signature, Time, Credentials, User, Entry, Searched, entries,
  failed,
}
use hologram.Server.Handler.State.{
  Settings, State, Services, fuel_for, creds_message, challenge_message, failure_message,
  make_creds_response, send, error_message, success_message, pong, handle_ping, write_error,
  hang_up, with_expiration, outside,
}
use hologram.Server.Handler.Challenge.{
  new_challenge, answer_verdict, check_answer, check_request, check_response, challenge_round,
  ssh_challenge, run_challenge, signature_of,
}
use hologram.Server.Handler.Requests.{
  assume, dispatch, send_creds, fall_back, grant_role, handle_assume_role, report_second,
  grant_default, handle_get_user_credentials, add_key, check_password, with_search,
  handle_add_ssh_key, handle_server_request, has_key, key_addition, user_search, no_access_text,
}
use hologram.Server.Handler.Loop.{dispatch_message, handle_message, handle_connection}
use hologram.Server.Handler.Sending.{
  Holds, Keeps-receive, Keeps-send, Keeps-hang_up, Keeps-counter, Keeps-outside,
}

-- The credentials that a message carries.
abbrev pub carried : Message → Option StsCredentials
carried m = elim m.server_response [ none ↦ none | some r ↦ r.credentials ]

-- The form of credentials on the wire.
abbrev pub wire_form : Credentials → Time → StsCredentials
wire_form creds t = record {
  access_key_id = creds.access_key_id;
  secret_access_key = creds.secret_access_key;
  access_token = creds.session_token;
  expiration = some t.seconds;
}

-- `sc` is the wire form of credentials that are `Good`.
abbrev pub IsGood : (Credentials → Type 0) → StsCredentials → Type 0
IsGood Good sc =
    (creds : Credentials) × (t : Time) × Good creds
    × (creds.expiration ≡ some t)
    × (sc ≡ wire_form creds t)

abbrev pub IsGoodIfAny : (Credentials → Type 0) → Option StsCredentials → Type 0
IsGoodIfAny Good none = Unit
IsGoodIfAny Good (some sc) = IsGood Good sc

-- Any credentials in the message are good ones.
abbrev pub IsGranted : (Credentials → Type 0) → Message → Type 0
IsGranted Good m = IsGoodIfAny Good (carried m)

-- What a call that may return a user, or credentials, says of them.
abbrev pub OkUser : {Key : Type 0} → (User Key → Type 0) → Result (Option (User Key)) → Type 0
OkUser Auth (ok (some u)) = Auth u
OkUser Auth (ok none) = Unit
OkUser Auth (err e) = Unit

abbrev pub OkCredentials : (Credentials → Type 0) → Result (Option Credentials) → Type 0
OkCredentials Good (ok (some c)) = Good c
OkCredentials Good (ok none) = Unit
OkCredentials Good (err e) = Unit

abbrev pub OkOnly : {Key : Type 0} → (User Key → Type 0) → Result (User Key) → Type 0
OkOnly Auth (ok u) = Auth u
OkOnly Auth (err e) = Unit

-- What the invariant asks of the services, which keep `Inv` of what is behind them; `roles_on` is
-- whether LDAP roles are enabled.
pub record IsFaithful {Key W : Type 0} (services : Services Key W) (roles_on : Bool)
    (Inv : W → Type 0) (Auth : User Key → Type 0) (Good : Credentials → Type 0) : Type 0 where
  pub authenticated :
      (name : String) (challenge : Bytes) (sig : Signature)
      → Keeps Inv (OkUser Auth) (services.user_cache.authenticate name challenge sig)
  pub granted :
      (user : User Key) (role : String)
      → Auth user
      → Keeps Inv (OkCredentials Good) (services.credentials.assume_role user role roles_on)
  pub updated : Keeps Inv Any services.user_cache.update
  pub searched : (r : SearchRequest) → Keeps Inv Any (services.ldap_server.search r)
  pub modified : (r : ModifyRequest) → Keeps Inv Any (services.ldap_server.modify r)

abbrev pub Safe : {W : Type 0} → (Credentials → Type 0) → (W → Type 0) → State W → Type 0
Safe Good Inv = Holds (IsGranted Good) Inv

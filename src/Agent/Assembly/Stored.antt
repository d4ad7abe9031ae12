-- ===== src/Agent/Assembly/Stored.antt =====
-- Where the credentials come from that the agent keeps and its metadata service gives out.
use hologram.Prelude.{ℕ, zero, suc, String, Bool, true, false, Option, none, some, str_eq}
use hologram.Prelude.Go.{Error, Bytes, Result, ok, err, Go}
use hologram.Prelude.Keeps.{
  Keeps, Any, Ensures-Any, Keeps-pure, Keeps-panics, Keeps-if, Keeps-fuel, Keeps-bind,
}
use hologram.Protocol.Requests.{AssumeRole, GetUserCredentials}
use hologram.Protocol.AgentRequest.{AgentRequest}
use hologram.Protocol.Message.{Message}
use hologram.Server.Types.{Time, Credentials}
use hologram.Agent.Session.{Session, outside}
use hologram.Agent.Client.{Client}
use hologram.Agent.CliHandler.{
  Verdict, go_on, leave, after_reply, reply, refuse, serve, handle_agent_request, handle_read,
  handle_next, after_verdict, handle_connection, run_connection,
}
use hologram.Agent.Expiration.{
  before, beside, Manager, renew, renew_if, check_expiration, after_refresh, get_set,
  maybe_refresh_credentials, get_credentials,
}

module _ (Good : String → Credentials → Type 0) where
  abbrev pub IsGood : String → Option Credentials → Type 0
  IsGood role none = Unit
  IsGood role (some c) = Good role c

  -- Credentials that are good ones for some role.
  abbrev pub Given : Result (Option Credentials) → Type 0
  Given (ok (some c)) = (role : String) × Good role c
  Given (ok none) = Unit
  Given (err e) = Unit

  Given-Holds : (role : String) (o : Option Credentials) → IsGood role o → Given (ok o)
  Given-Holds role none h = h
  Given-Holds role (some c) h = (role, h)

module _ {U : Type 0} (Good : String → Credentials → Type 0) where
  -- The credentials that the manager keeps are good ones for the role that it keeps.
  abbrev pub Holds : Manager U → Type 0
  Holds m = IsGood Good m.role m.creds

  pub beside-Keeps : {A : Type 0} (f : Go U A) → Keeps Holds Any (beside f)
  beside-Keeps f = record { at = λ m h. (h, Ensures-Any _) }

  -- A client that stores good credentials, if any.
  pub record StoresGood (client : Client (Manager U)) : Type 0 where
    pub assume_role : (role : String) → Keeps Holds Any (client.assume_role role)
    pub get_user_credentials : Keeps Holds Any client.get_user_credentials

  module _ (client : Client (Manager U)) (good : StoresGood client) where
    module _ (now : U → Time) where
      renew-Keeps : (role : String) → Keeps Holds Any (renew now (some client) client role)
      renew-Keeps role = Keeps-if (str_eq role "") good.get_user_credentials (good.assume_role role)

      renew_if-Keeps : (b : Bool) → Keeps Holds Any (renew_if now (some client) b client)
      renew_if-Keeps true = record { at = λ s h. (renew-Keeps s.role).at s h }
      renew_if-Keeps false = Keeps-pure none tt

      check_expiration-Keeps :
          (t : Option Time) → Keeps Holds Any (check_expiration now (some client) client t)
      check_expiration-Keeps none = Keeps-panics
      check_expiration-Keeps (some t) = record {
        at = λ s h. (renew_if-Keeps (before t (now s.world))).at s h;
      }

      after_refresh-Keeps :
          (e : Option Error) → Keeps Holds (Given Good) (after_refresh now (some client) e)
      after_refresh-Keeps (some e) = Keeps-pure (err e) tt
      after_refresh-Keeps none = record { at = λ s h. (h, Given-Holds Good s.role s.creds h) }

      get_set-Keeps :
          (creds : Option Credentials) → Keeps Holds (Given Good) (get_set now (some client) creds)
      unfolding maybe_refresh_credentials
      get_set-Keeps none = Keeps-pure _ tt
      get_set-Keeps (some c) =
          Keeps-bind (check_expiration-Keeps c.expiration) (λ e q. after_refresh-Keeps e)

      pub get_credentials-Keeps : Keeps Holds (Given Good) (get_credentials now (some client))
      unfolding get_credentials
      get_credentials-Keeps = record { at = λ s h. (get_set-Keeps s.creds).at s h }

    -- The same of the handler of the command line, in the state of a connection.
    module _ (set_sock : String → Option Bytes → Go (Manager U) (Unit {0}))
        (keeps_sock : (sock : String) (key : Option Bytes)
          → Keeps Holds Any (set_sock sock key)) where
      abbrev Held : Session (Manager U) → Type 0
      Held s = Holds s.world

      outside-Keeps :
          {A : Type 0} {m : Go (Manager U) A} → Keeps Holds Any m → Keeps Held Any (outside m)
      outside-Keeps k = record { at = λ s h. k.at s.world h }

      after_reply-Keeps : (e : Option Error) → Keeps Held Any (after_reply set_sock client e)
      after_reply-Keeps (some e) = Keeps-pure leave tt
      after_reply-Keeps none = Keeps-pure go_on tt

      reply-Keeps : (e : Option Error) → Keeps Held Any (reply set_sock client e)
      reply-Keeps e =
          Keeps-bind {Q = Any} (record { at = λ s h. (h, tt) }) (λ x q. after_reply-Keeps x)

      refuse-Keeps : Keeps Held Any (refuse set_sock client)
      refuse-Keeps =
          Keeps-bind {Q = Any} (record { at = λ s h. (h, tt) }) (λ x q. Keeps-pure leave tt)

      serve-Keeps :
          (r : Option AssumeRole) (g : Option GetUserCredentials)
          → Keeps Held Any (serve set_sock client r g)
      serve-Keeps (some r) g =
          Keeps-bind (outside-Keeps (good.assume_role _)) (λ e q. reply-Keeps e)
      serve-Keeps none (some g) =
          Keeps-bind (outside-Keeps good.get_user_credentials) (λ e q. reply-Keeps e)
      serve-Keeps none none = refuse-Keeps

      handle_agent_request-Keeps :
          (r : Option AgentRequest) → Keeps Held Any (handle_agent_request set_sock client r)
      handle_agent_request-Keeps none = refuse-Keeps
      handle_agent_request-Keeps (some r) =
          Keeps-bind (outside-Keeps (keeps_sock _ _)) (λ u q. serve-Keeps _ _)

      handle_read-Keeps : (r : Result Message) → Keeps Held Any (handle_read set_sock client r)
      handle_read-Keeps (err e) = Keeps-pure leave tt
      handle_read-Keeps (ok msg) = handle_agent_request-Keeps _

      handle_next-Keeps : Keeps Held Any (handle_next set_sock client)
      unfolding handle_next
      handle_next-Keeps =
          Keeps-bind {Q = Any} (record { at = λ s h. (h, tt) }) (λ r q. handle_read-Keeps r)

      after_verdict-Keeps :
          (again : Go (Session (Manager U)) (Unit {0})) (v : Verdict)
          → Keeps Held Any again
          → Keeps Held Any (after_verdict set_sock client again v)
      after_verdict-Keeps again leave k = Keeps-pure tt tt
      after_verdict-Keeps again go_on k = k

      handle_connection-Keeps : (fuel : ℕ) → Keeps Held Any (handle_connection set_sock client fuel)
      unfolding handle_connection
      handle_connection-Keeps zero = Keeps-fuel
      handle_connection-Keeps (suc fuel) =
          let again = handle_connection-Keeps fuel in
          let k = Keeps-bind handle_next-Keeps (λ v q. after_verdict-Keeps _ v again) in
          record { at = k.at }

      pub run_connection-Holds :
          (s : Session (Manager U))
          → Holds s.world
          → Holds (run_connection set_sock client s).1.world
      run_connection-Holds s h = ((handle_connection-Keeps _).at s h).0

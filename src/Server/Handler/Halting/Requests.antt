-- ===== src/Server/Handler/Halting/Requests.antt =====
-- Each request handler of server/server.go ends.
use hologram.Prelude.{refl, String, Option, none, some, [], ◌∷◌}
use hologram.Prelude.Go.{Error, Result, ok, err, pure, ◌>>=◌}
use hologram.Protocol.Requests.{AssumeRole, GetUserCredentials, AddSshKey}
use hologram.Protocol.Message.{Message}
use hologram.Server.Types.{Time, Credentials, User, Entry, Searched, entries, failed}
use hologram.Server.Handler.State.{
  Settings, Services, make_creds_response, send, error_message, success_message, write_error,
  hang_up, with_expiration,
}
use hologram.Server.Handler.Requests.{
  assume, dispatch, send_creds, fall_back, grant_role, handle_assume_role, report_second,
  grant_default, handle_get_user_credentials, add_key, check_password, with_search,
  handle_add_ssh_key,
}
use hologram.Server.Handler.Halting.Rules.{
  Halts, free, Halts-pure, Halts-panics, Halts-if, Halts-bind, Halts-send, Halts-hang_up,
  Halts-counter, Halts-outside,
}
use hologram.Server.Handler.Halting.Challenge.{ServicesHalt, run_challenge-Halts}

module _ {Key W : Type 0} (settings : Settings) (services : Services Key W)
    (halt : ServicesHalt services) where
  pub send_plain-Halts : (m : Message) → Halts free (send {W = W} m >>= λ _. pure tt)
  send_plain-Halts m = Halts-bind (Halts-send m) λ _. Halts-pure tt refl

  write_error-Halts : (text : String) → Halts free (write_error {W = W} text)
  unfolding write_error
  write_error-Halts text = send_plain-Halts (error_message text)

  hang_up-Halts : Halts free (hang_up {W = W} >>= λ _. pure tt)
  hang_up-Halts = Halts-bind Halts-hang_up λ _. Halts-pure tt refl

  with_expiration-Halts :
      (creds : Credentials) (o : Option Time) → Halts free (with_expiration {W = W} creds o)
  with_expiration-Halts creds none = Halts-panics
  with_expiration-Halts creds (some t) = Halts-pure _ refl

  make_creds_response-Halts : (o : Option Credentials) → Halts free (make_creds_response {W = W} o)
  unfolding make_creds_response
  make_creds_response-Halts none = Halts-panics
  make_creds_response-Halts (some creds) = with_expiration-Halts creds creds.expiration

  send_creds-Halts : (o : Option Credentials) → Halts free (send_creds settings services o)
  unfolding send_creds
  send_creds-Halts o = Halts-bind (make_creds_response-Halts o) send_plain-Halts

  assume-Halts : (user : User Key) (role : String) → Halts free (assume settings services user role)
  assume-Halts user role = Halts-outside _ (halt.assume_role user role settings.enable_ldap_roles)

  fall_back-Halts : (user : User Key) (e : Error) → Halts free (fall_back settings services user e)
  unfolding fall_back
  fall_back-Halts user e = Halts-bind (write_error-Halts e) λ _. Halts-bind (Halts-counter _) λ _.
      Halts-bind (assume-Halts user user.default_role)
        (elim [ err _ ↦ Halts-pure _ refl | ok creds ↦ send_creds-Halts creds ])

  grant_role-Halts :
      (user : User Key) (role : String) → Halts free (grant_role settings services user role)
  unfolding grant_role
  grant_role-Halts user role = Halts-bind (assume-Halts user role) (elim [
    | ok creds ↦ send_creds-Halts creds
    | err _ ↦ Halts-bind (Halts-outside _ halt.update) λ _.
        Halts-bind (assume-Halts user role)
          (elim [ err e ↦ fall_back-Halts user e | ok shadowed ↦ send_creds-Halts none ])
  ])

  handle_assume_role-Halts :
      (msg : AssumeRole) → Halts free (handle_assume_role settings services msg)
  unfolding handle_assume_role
  handle_assume_role-Halts msg = Halts-bind (Halts-counter _) λ _.
      Halts-bind (run_challenge-Halts services halt)
        (elim [ err _ ↦ hang_up-Halts | ok user ↦ grant_role-Halts user _ ])

  report_second-Halts :
      (user : User Key) (r : Result (Option Credentials))
      → Halts free (report_second settings services user r)
  report_second-Halts user (err _) = write_error-Halts _
  report_second-Halts user (ok _) = Halts-pure tt refl

  grant_default-Halts : (user : User Key) → Halts free (grant_default settings services user)
  unfolding grant_default
  grant_default-Halts user = Halts-bind (assume-Halts user user.default_role) (elim [
    | ok creds ↦ send_creds-Halts creds
    | err _ ↦ Halts-bind (Halts-outside _ halt.update) λ _.
        Halts-bind (assume-Halts user user.default_role)
          λ second. Halts-bind (report_second-Halts user second) λ _. hang_up-Halts
  ])

  handle_get_user_credentials-Halts :
      (msg : GetUserCredentials) → Halts free (handle_get_user_credentials settings services msg)
  unfolding handle_get_user_credentials
  handle_get_user_credentials-Halts msg = Halts-bind (Halts-counter _) λ _.
      Halts-bind (run_challenge-Halts services halt)
        (elim [ err _ ↦ hang_up-Halts | ok user ↦ grant_default-Halts user ])

  add_key-Halts :
      (entry : Entry) (msg : AddSshKey) → Halts free (add_key settings services entry msg)
  unfolding add_key
  add_key-Halts entry msg = Halts-if _ (send_plain-Halts success_message) (
      Halts-bind (Halts-outside _ (halt.modify _))
        (elim [ some _ ↦ write_error-Halts _ | none ↦ send_plain-Halts success_message ]))

  with_search-Halts :
      (msg : AddSshKey) (found : Searched) → Halts free (with_search settings services msg found)
  unfolding check_password
  with_search-Halts msg (failed e) = write_error-Halts _
  with_search-Halts msg (entries []) = write_error-Halts _
  with_search-Halts msg (entries (entry ∷ rest)) =
      Halts-if _ (add_key-Halts entry msg) (write_error-Halts _)

  handle_add_ssh_key-Halts :
      (msg : AddSshKey) → Halts free (handle_add_ssh_key settings services msg)
  unfolding handle_add_ssh_key
  handle_add_ssh_key-Halts msg =
      Halts-bind (Halts-counter _)
        λ _. Halts-bind (Halts-outside _ (halt.search _)) λ found. with_search-Halts msg found

  pub dispatch-Halts :
      (a : Option AssumeRole) (g : Option GetUserCredentials) (k : Option AddSshKey)
      → Halts free (dispatch settings services a g k)
  dispatch-Halts (some msg) g k = handle_assume_role-Halts msg
  dispatch-Halts none (some msg) k = handle_get_user_credentials-Halts msg
  dispatch-Halts none none (some msg) = handle_add_ssh_key-Halts msg
  dispatch-Halts none none none = Halts-pure tt refl

-- ===== src/Server/Handler/Provenance/Requests.antt =====
-- The requests of server/server.go send only credentials that were granted.
use hologram.Prelude.{◌≡◌, refl, String, Option, none, some, [], ◌∷◌}
use hologram.Prelude.Go.{Error, Result, ok, err, pure, ◌>>=◌}
use hologram.Prelude.Keeps.{Keeps, Any, Keeps-pure, Keeps-panics, Keeps-bind, Keeps-if}
use hologram.Protocol.Requests.{AssumeRole, GetUserCredentials, AddSshKey}
use hologram.Protocol.Message.{Message}
use hologram.Server.Types.{Time, Credentials, User, Entry, Searched, entries, failed}
use hologram.Server.Handler.State.{
  Settings, Services, make_creds_response, send, error_message, success_message, write_error,
  hang_up, with_expiration, outside,
}
use hologram.Server.Handler.Requests.{
  assume, dispatch, send_creds, fall_back, grant_role, handle_assume_role, report_second,
  grant_default, handle_get_user_credentials, add_key, check_password, with_search,
  handle_add_ssh_key,
}
use hologram.Server.Handler.Sending.{Keeps-send, Keeps-hang_up, Keeps-counter, Keeps-outside}
use hologram.Server.Handler.Provenance.{IsGranted, OkCredentials, IsFaithful, Safe}
use hologram.Server.Handler.Provenance.Challenge.{run_challenge-Safe}

module _ {Key W : Type 0} (settings : Settings) (services : Services Key W) {Inv : W → Type 0}
    {Auth : User Key → Type 0} {Good : Credentials → Type 0}
    (faithful : IsFaithful services settings.enable_ldap_roles Inv Auth Good) where
  -- Sending a fixed message that carries no credentials.
  pub send_plain-Safe :
      (m : Message) → IsGranted Good m → Keeps (Safe Good Inv) Any (send {W = W} m >>= λ _. pure tt)
  send_plain-Safe m p = Keeps-bind (Keeps-send (IsGranted Good) Inv m p) λ _ _. Keeps-pure tt tt

  pub write_error-Safe : (text : String) → Keeps (Safe Good Inv) Any (write_error {W = W} text)
  unfolding write_error
  write_error-Safe text = send_plain-Safe (error_message text) tt

  pub hang_up-Safe : Keeps (Safe Good Inv) Any (hang_up {W = W} >>= λ _. pure tt)
  hang_up-Safe = Keeps-bind (Keeps-hang_up (IsGranted Good) Inv) λ _ _. Keeps-pure tt tt

  pub with_expiration-Safe :
      (creds : Credentials) (o : Option Time)
      → creds.expiration ≡ o
      → Good creds
      → Keeps (Safe Good Inv) (IsGranted Good) (with_expiration {W = W} creds o)
  with_expiration-Safe creds none e g = Keeps-panics
  with_expiration-Safe creds (some t) e g = Keeps-pure _ (creds, t, g, e, refl)

  pub make_creds_response-Safe :
      (o : Option Credentials)
      → OkCredentials Good (ok o)
      → Keeps (Safe Good Inv) (IsGranted Good) (make_creds_response {W = W} o)
  unfolding make_creds_response
  make_creds_response-Safe none g = Keeps-panics
  make_creds_response-Safe (some creds) g = with_expiration-Safe creds creds.expiration refl g

  pub send_creds-Safe :
      (o : Option Credentials)
      → OkCredentials Good (ok o)
      → Keeps (Safe Good Inv) Any (send_creds settings services o)
  unfolding send_creds
  send_creds-Safe o g = Keeps-bind (make_creds_response-Safe o g) send_plain-Safe

  pub assume-Safe :
      (user : User Key) (role : String)
      → Auth user
      → Keeps (Safe Good Inv) (OkCredentials Good) (assume settings services user role)
  assume-Safe user role a = Keeps-outside (IsGranted Good) Inv (faithful.granted user role a)

  pub update-Safe : Keeps (Safe Good Inv) Any (outside services.user_cache.update)
  update-Safe = Keeps-outside (IsGranted Good) Inv faithful.updated

  pub fall_back-Safe :
      (user : User Key) (e : Error)
      → Auth user
      → Keeps (Safe Good Inv) Any (fall_back settings services user e)
  unfolding fall_back
  fall_back-Safe user e a = Keeps-bind (write_error-Safe e) λ _ _.
      Keeps-bind (Keeps-counter (IsGranted Good) Inv _) λ _ _.
        Keeps-bind (assume-Safe user user.default_role a)
          (elim [ err _ ↦ λ _. Keeps-pure _ tt | ok creds ↦ send_creds-Safe creds ])

  pub grant_role-Safe :
      (user : User Key) (role : String)
      → Auth user
      → Keeps (Safe Good Inv) Any (grant_role settings services user role)
  unfolding grant_role
  grant_role-Safe user role a = Keeps-bind (assume-Safe user role a) (elim [
    | ok creds ↦ send_creds-Safe creds
    | err _ ↦ λ _. Keeps-bind update-Safe λ _ _.
        Keeps-bind (assume-Safe user role a) (elim [
          | err e ↦ λ _. fall_back-Safe user e a
          | ok shadowed ↦ λ _. send_creds-Safe none tt
        ])
  ])

  pub handle_assume_role-Safe :
      (msg : AssumeRole) → Keeps (Safe Good Inv) Any (handle_assume_role settings services msg)
  unfolding handle_assume_role
  handle_assume_role-Safe msg = Keeps-bind (Keeps-counter (IsGranted Good) Inv _) λ _ _.
      Keeps-bind (run_challenge-Safe services faithful)
        (elim [ err _ ↦ λ _. hang_up-Safe | ok user ↦ grant_role-Safe user _ ])

  pub report_second-Safe :
      (user : User Key) (r : Result (Option Credentials))
      → Keeps (Safe Good Inv) Any (report_second settings services user r)
  report_second-Safe user (err _) = write_error-Safe _
  report_second-Safe user (ok _) = Keeps-pure tt tt

  pub grant_default-Safe :
      (user : User Key)
      → Auth user
      → Keeps (Safe Good Inv) Any (grant_default settings services user)
  unfolding grant_default
  grant_default-Safe user a = Keeps-bind (assume-Safe user user.default_role a) (elim [
    | ok creds ↦ send_creds-Safe creds
    | err _ ↦ λ _. Keeps-bind update-Safe λ _ _.
        Keeps-bind (assume-Safe user user.default_role a)
          λ second _. Keeps-bind (report_second-Safe user second) λ _ _. hang_up-Safe
  ])

  pub handle_get_user_credentials-Safe :
      (msg : GetUserCredentials)
      → Keeps (Safe Good Inv) Any (handle_get_user_credentials settings services msg)
  unfolding handle_get_user_credentials
  handle_get_user_credentials-Safe msg = Keeps-bind (Keeps-counter (IsGranted Good) Inv _) λ _ _.
      Keeps-bind (run_challenge-Safe services faithful)
        (elim [ err _ ↦ λ _. hang_up-Safe | ok user ↦ grant_default-Safe user ])

  pub add_key-Safe :
      (entry : Entry) (msg : AddSshKey)
      → Keeps (Safe Good Inv) Any (add_key settings services entry msg)
  unfolding add_key
  add_key-Safe entry msg = Keeps-if _ (send_plain-Safe success_message tt) (
      Keeps-bind (Keeps-outside (IsGranted Good) Inv (faithful.modified _)) (elim [
        | some _ ↦ λ _. write_error-Safe _
        | none ↦ λ _. send_plain-Safe success_message tt
      ]))

  pub with_search-Safe :
      (msg : AddSshKey) (found : Searched)
      → Keeps (Safe Good Inv) Any (with_search settings services msg found)
  unfolding check_password
  with_search-Safe msg (failed e) = write_error-Safe _
  with_search-Safe msg (entries []) = write_error-Safe _
  with_search-Safe msg (entries (entry ∷ rest)) =
      Keeps-if _ (add_key-Safe entry msg) (write_error-Safe _)

  pub handle_add_ssh_key-Safe :
      (msg : AddSshKey) → Keeps (Safe Good Inv) Any (handle_add_ssh_key settings services msg)
  unfolding handle_add_ssh_key
  handle_add_ssh_key-Safe msg = Keeps-bind (Keeps-counter (IsGranted Good) Inv _) λ _ _.
      Keeps-bind (Keeps-outside (IsGranted Good) Inv (faithful.searched _))
        λ found _. with_search-Safe msg found

  pub dispatch-Safe :
      (a : Option AssumeRole) (g : Option GetUserCredentials) (k : Option AddSshKey)
      → Keeps (Safe Good Inv) Any (dispatch settings services a g k)
  dispatch-Safe (some msg) g k = handle_assume_role-Safe msg
  dispatch-Safe none (some msg) k = handle_get_user_credentials-Safe msg
  dispatch-Safe none none (some msg) = handle_add_ssh_key-Safe msg
  dispatch-Safe none none none = Keeps-pure tt tt

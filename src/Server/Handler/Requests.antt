-- ===== src/Server/Handler/Requests.antt =====
-- server/server.go: `HandleServerRequest`, one function for each kind of request.
use hologram.Prelude.{
  String, ◌<>◌, Bool, true, false, Option, none, some, List, [], ◌∷◌, str_eq, if◌then◌else◌,
}
use hologram.Prelude.Go.{Error, Result, ok, err, Go, pure, ◌>>=◌, ◌>>◌}
use hologram.Protocol.Requests
use hologram.Protocol.Requests.{AssumeRole, GetUserCredentials, AddSshKey}
use hologram.Protocol.ServerRequest
use hologram.Protocol.ServerRequest.{ServerRequest}
use hologram.Server.Types.{
  Credentials, User, SearchRequest, Entry, ModifyRequest, LdapError, Searched, entries, failed,
}
use hologram.Server.Handler.State.{
  Settings, State, Services, send, hang_up, counter, outside, make_creds_response, write_error,
  success_message,
}
use hologram.Server.Handler.Challenge.{run_challenge}

-- Whether the key is one of those that the entry lists.
unfoldable pub has_key : String → List String → Bool
has_key key [] = false
has_key key (k ∷ ks) = if str_eq k key then true else has_key key ks

-- The answer after a `Modify`.
abbrev pub report_modify : {W : Type 0} → Option LdapError → Go (State W) (Unit {0})
report_modify (some _) = write_error "Error saving ssh key"
report_modify none = do _ ← send success_message; pure tt

module _ {Key W : Type 0} (settings : Settings) (services : Services Key W) where
  abbrev pub assume : User Key → String → Go (State W) (Result (Option Credentials))
  assume user role = outside (services.credentials.assume_role user role settings.enable_ldap_roles)

  -- m.Write(makeCredsResponse(creds))
  unfoldable pub send_creds : Option Credentials → Go (State W) (Unit {0})
  send_creds creds = do msg ← make_creds_response creds; _ ← send msg; pure tt

  -- The last attempt, with the role that the user has by default.
  unfoldable pub fall_back : User Key → Error → Go (State W) (Unit {0})
  fall_back user e = do
    write_error e
    counter "errors.assumeRole"
    r ← assume user user.default_role
    elim r [ err _ ↦ pure tt | ok creds ↦ send_creds creds ]

  -- The second call's credentials are bound inside the block (`creds, err :=`), so behind it `creds`
  -- is what the first, failed call returned: nil.
  unfoldable pub grant_role : User Key → String → Go (State W) (Unit {0})
  grant_role user role = do
    first ← assume user role
    elim first [
      | ok creds ↦ send_creds creds
      | err _ ↦ do
        _ ← outside services.user_cache.update
        second ← assume user role
        elim second [ err e ↦ fall_back user e | ok shadowed ↦ send_creds none ]
    ]

  unfoldable pub handle_assume_role : AssumeRole → Go (State W) (Unit {0})
  handle_assume_role msg = do
    counter "messages.assumeRole"
    r ← run_challenge services
    elim r [
      | err _ ↦ do _ ← hang_up; pure tt
      | ok user ↦ grant_role user (Requests.get_role (some msg))
    ]

  abbrev pub no_access_text : User Key → String
  no_access_text user =
      "Could not get user credentials. " <> user.username
      <> " may not have been given Hologram access yet."

  abbrev pub report_second : User Key → Result (Option Credentials) → Go (State W) (Unit {0})
  report_second user (err _) = write_error (no_access_text user)
  report_second user (ok creds) = pure tt

  -- After a second call that succeeds nothing is written: the connection is closed either way.
  unfoldable pub grant_default : User Key → Go (State W) (Unit {0})
  grant_default user = do
    first ← assume user user.default_role
    elim first [
      | ok creds ↦ send_creds creds
      | err _ ↦ do
        _ ← outside services.user_cache.update
        second ← assume user user.default_role
        report_second user second
        _ ← hang_up
        pure tt
    ]

  unfoldable pub handle_get_user_credentials : GetUserCredentials → Go (State W) (Unit {0})
  handle_get_user_credentials msg = do
    counter "messages.getUserCredentialsMsg"
    r ← run_challenge services
    elim r [ err _ ↦ do _ ← hang_up; pure tt | ok user ↦ grant_default user ]

  abbrev pub user_search : AddSshKey → SearchRequest
  user_search msg = record {
    base_dn = settings.base_dn;
    filter = "(" <> settings.user_attr <> "=" <> Requests.get_username (some msg) <> ")";
    attributes = settings.ssh_attr ∷ settings.user_attr ∷ "userPassword" ∷ [];
  }

  abbrev pub key_addition : Entry → AddSshKey → ModifyRequest
  key_addition entry msg = record {
    dn = entry.dn;
    add_attributes = (settings.ssh_attr, Requests.get_sshkeybytes (some msg) ∷ []) ∷ [];
  }

  unfoldable pub add_key : Entry → AddSshKey → Go (State W) (Unit {0})
  add_key entry msg =
      if has_key (Requests.get_sshkeybytes (some msg)) (entry.attribute_values settings.ssh_attr)
      then (send success_message >>= λ _. pure tt)
      else (do e ← outside (services.ldap_server.modify (key_addition entry msg)); report_modify e)

  unfoldable pub check_password : Entry → AddSshKey → Go (State W) (Unit {0})
  check_password entry msg =
      if str_eq (entry.attribute_value "userPassword") (Requests.get_passwordhash (some msg))
      then add_key entry msg
      else write_error "The username or password is incorrect."

  abbrev pub with_search : AddSshKey → Searched → Go (State W) (Unit {0})
  with_search msg (failed e) = write_error "There was an error connecting to the data source."
  with_search msg (entries []) = write_error "The username or password is incorrect."
  with_search msg (entries (entry ∷ rest)) = check_password entry msg

  unfoldable pub handle_add_ssh_key : AddSshKey → Go (State W) (Unit {0})
  handle_add_ssh_key msg = do
    counter "messages.addSSHKeyMsg"
    found ← outside (services.ldap_server.search (user_search msg))
    with_search msg found

  -- The first kind of request that is set is handled, in this order.
  abbrev pub dispatch :
      Option AssumeRole → Option GetUserCredentials → Option AddSshKey → Go (State W) (Unit {0})
  dispatch (some msg) g k = handle_assume_role msg
  dispatch none (some msg) k = handle_get_user_credentials msg
  dispatch none none (some msg) = handle_add_ssh_key msg
  dispatch none none none = pure tt

  unfoldable pub handle_server_request : ServerRequest → Go (State W) (Unit {0})
  handle_server_request r =
      dispatch (ServerRequest.get_assume_role (some r))
        (ServerRequest.get_user_credentials (some r)) (ServerRequest.get_add_ssh_key (some r))

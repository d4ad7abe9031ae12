-- ===== src/Server/Credentials.antt =====
-- server/credentials.go: the role names and the credential service over AWS STS, which is a parameter.
pub mod Arn
pub mod Access
use hologram.Prelude.{
  ℕ, String, ◌<>◌, Bool, true, false, Option, none, some, List, [], ◌∷◌, str_eq, starts_with,
  if◌then◌else◌,
}
use hologram.Prelude.Go.{Error, Result, ok, err, Outcome, ret, Go, pure, ◌>>=◌}
use hologram.Prelude.Text.{split, contains_text}
use hologram.Server.Types.{Credentials, User, CredentialService}

-- A Go map from texts to texts; a missing key reads as "".
abbrev pub Aliases : Type 0
Aliases = List (String × String)

unfoldable pub alias : Aliases → String → String
alias [] key = ""
alias ((k, v) ∷ rest) key = if str_eq k key then v else alias rest key

-- What the first test of `BuildARN` finds: the account of an alias and the role behind it.
abbrev with_account : String → String → Option (String × String)
with_account account role = if str_eq account "" then none else some (account, role)

abbrev pub alias_parts : List String → Option Aliases → Option (String × String)
alias_parts (account ∷ role ∷ []) (some aliases) = with_account (alias aliases account) role
alias_parts _ _ = none

abbrev pub plain_arn : String → String → String
plain_arn role default_account =
    if starts_with role "arn:aws:iam"
    then role
    else if contains_text role ":role/"
    then "arn:aws:iam::" <> role
    else "arn:aws:iam::" <> (default_account <> (":role/" <> role))

abbrev pub build_from : Option (String × String) → String → String → String
build_from (some (account, name)) role default_account = account <> (":role/" <> name)
build_from none role default_account = plain_arn role default_account

-- `BuildARN`; the map of aliases is a pointer.
unfoldable pub build_arn : String → String → Option Aliases → String
build_arn role default_account aliases =
    build_from (alias_parts (split b'/' role) aliases) role default_account

-- `sts.AssumeRoleInput`
pub record AssumeRoleInput : Type 0 where
  pub duration_seconds : ℕ
  pub role_arn : String
  pub role_session_name : String

-- `STSImplementation`: the credentials of a response are a pointer.
pub record Sts (W : Type 0) : Type 0 where
  pub assume_role : AssumeRoleInput → Go W (Result (Option Credentials))
  pub get_session_token : Go W (Result (Option Credentials))

pub record DirectSessionTokenService (W : Type 0) : Type 0 where
  pub iam_account : String
  pub sts : Sts W
  pub account_aliases : Option Aliases

module _ {W : Type 0} (s : DirectSessionTokenService W) where
  unfoldable pub arn_of : String → String
  arn_of role = build_arn role s.iam_account s.account_aliases

  -- for _, a := range user.ARNs: the loop leaves `found` true at the first match
  unfoldable pub find_arn : String → List String → Bool
  find_arn arn [] = false
  find_arn arn (a ∷ rest) = if str_eq arn (arn_of a) then true else find_arn arn rest

  unfoldable pub get_session_token : Go W (Result (Option Credentials))
  get_session_token = s.sts.get_session_token

abbrev pub not_authorized : {Key : Type 0} → User Key → String → Error
not_authorized user arn =
    "User " <> user.username <> " is not authorized to assume role " <> arn <> "!"

abbrev pub role_input : {Key : Type 0} → User Key → String → AssumeRoleInput
role_input user arn = record {
  duration_seconds = 3600;
  role_arn = arn;
  role_session_name = user.username;
}

module _ {Key W : Type 0} (s : DirectSessionTokenService W) where
  abbrev call_sts : User Key → String → Go W (Result (Option Credentials))
  call_sts user arn = s.sts.assume_role (role_input user arn)

  -- With LDAP roles the request is refused unless one of the user's ARNs is that of the role.
  unfoldable pub assume_role : User Key → String → Bool → Go W (Result (Option Credentials))
  assume_role user role enable_ldap_roles =
      let arn = arn_of s role in
      if enable_ldap_roles
      then (if find_arn s arn user.arns
          then call_sts user arn
          else pure (err (not_authorized user arn)))
      else call_sts user arn

  abbrev pub direct_service : CredentialService Key W
  direct_service = record { assume_role = assume_role; get_session_token = get_session_token s }

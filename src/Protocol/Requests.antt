-- ===== src/Protocol/Requests.antt =====
-- protocol/hologram.pb.go: the bodies of requests. A pointer is an `Option`; a getter may be called
-- on a nil receiver. The bytes of unknown fields (`XXX_unrecognized`) are left out.
use hologram.Prelude.{Option, none, some, String}
use hologram.Prelude.Go.{Bytes}

pub record AssumeRole : Type 0 where
  pub user : Option String
  pub role : Option String

unfoldable pub get_user : Option AssumeRole → String
get_user none = ""
get_user (some m) = elim m.user [ none ↦ "" | some s ↦ s ]

unfoldable pub get_role : Option AssumeRole → String
get_role none = ""
get_role (some m) = elim m.role [ none ↦ "" | some s ↦ s ]

pub data GetUserCredentials : Type 0 where
  get_user_credentials : GetUserCredentials

pub record AddSshKey : Type 0 where
  pub username : Option String
  pub passwordhash : Option String
  pub sshkeybytes : Option String

unfoldable pub get_username : Option AddSshKey → String
get_username none = ""
get_username (some m) = elim m.username [ none ↦ "" | some s ↦ s ]

unfoldable pub get_passwordhash : Option AddSshKey → String
get_passwordhash none = ""
get_passwordhash (some m) = elim m.passwordhash [ none ↦ "" | some s ↦ s ]

unfoldable pub get_sshkeybytes : Option AddSshKey → String
get_sshkeybytes none = ""
get_sshkeybytes (some m) = elim m.sshkeybytes [ none ↦ "" | some s ↦ s ]

pub record SshChallengeResponse : Type 0 where
  pub signature : Option Bytes
  pub format : Option String

unfoldable pub get_signature : Option SshChallengeResponse → Option Bytes
get_signature none = none
get_signature (some m) = m.signature

unfoldable pub get_format : Option SshChallengeResponse → String
get_format none = ""
get_format (some m) = elim m.format [ none ↦ "" | some s ↦ s ]

pub record MfaTokenResponse : Type 0 where
  pub token_value : Option String

unfoldable pub get_token_value : Option MfaTokenResponse → String
get_token_value none = ""
get_token_value (some m) = elim m.token_value [ none ↦ "" | some s ↦ s ]

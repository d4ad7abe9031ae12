-- ===== src/Protocol/Responses.antt =====
-- protocol/hologram.pb.go: the bodies of responses.
use hologram.Prelude.{Option, none, some, String}
use hologram.Prelude.Go.{Bytes}
use hologram.Prelude.Int.{ℤ, pos}

pub record SshChallenge : Type 0 where
  pub challenge : Option Bytes

unfoldable pub get_challenge : Option SshChallenge → Option Bytes
get_challenge none = none
get_challenge (some m) = m.challenge

pub data SshVerificationFailure : Type 0 where
  ssh_verification_failure : SshVerificationFailure

pub record StsCredentials : Type 0 where
  pub access_key_id : Option String
  pub secret_access_key : Option String
  pub access_token : Option String
  pub expiration : Option ℤ

unfoldable pub get_access_key_id : Option StsCredentials → String
get_access_key_id none = ""
get_access_key_id (some m) = elim m.access_key_id [ none ↦ "" | some s ↦ s ]

unfoldable pub get_secret_access_key : Option StsCredentials → String
get_secret_access_key none = ""
get_secret_access_key (some m) = elim m.secret_access_key [ none ↦ "" | some s ↦ s ]

unfoldable pub get_access_token : Option StsCredentials → String
get_access_token none = ""
get_access_token (some m) = elim m.access_token [ none ↦ "" | some s ↦ s ]

unfoldable pub get_expiration : Option StsCredentials → ℤ
get_expiration none = pos 0
get_expiration (some m) = elim m.expiration [ none ↦ pos 0 | some t ↦ t ]

pub data MfaTokenRequest : Type 0 where
  mfa_token_request : MfaTokenRequest

pub data Success : Type 0 where
  success : Success

pub record Failure : Type 0 where
  pub error_message : Option String

unfoldable pub get_error_message : Option Failure → String
get_error_message none = ""
get_error_message (some m) = elim m.error_message [ none ↦ "" | some s ↦ s ]

-- ===== src/Protocol/ServerResponse.antt =====
-- protocol/hologram.pb.go: the message `ServerResponse`.
use hologram.Prelude.{Option, none, some}
use hologram.Protocol.Responses.{
  SshChallenge, SshVerificationFailure, StsCredentials, MfaTokenRequest,
}

pub record ServerResponse : Type 0 where
  pub challenge : Option SshChallenge
  pub verification_failure : Option SshVerificationFailure
  pub credentials : Option StsCredentials
  pub token_request : Option MfaTokenRequest

unfoldable pub get_challenge : Option ServerResponse → Option SshChallenge
get_challenge none = none
get_challenge (some m) = m.challenge

unfoldable pub get_verification_failure : Option ServerResponse → Option SshVerificationFailure
get_verification_failure none = none
get_verification_failure (some m) = m.verification_failure

unfoldable pub get_credentials : Option ServerResponse → Option StsCredentials
get_credentials none = none
get_credentials (some m) = m.credentials

unfoldable pub get_token_request : Option ServerResponse → Option MfaTokenRequest
get_token_request none = none
get_token_request (some m) = m.token_request

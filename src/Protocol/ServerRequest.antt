-- ===== src/Protocol/ServerRequest.antt =====
-- protocol/hologram.pb.go: the message `ServerRequest`. It is a record with one pointer for each
-- member of the `oneof`, as in the generated code, so several may be set.
use hologram.Prelude.{Option, none, some}
use hologram.Protocol.Requests.{
  AssumeRole, GetUserCredentials, AddSshKey, SshChallengeResponse, MfaTokenResponse,
}

pub record ServerRequest : Type 0 where
  pub assume_role : Option AssumeRole
  pub challenge_response : Option SshChallengeResponse
  pub token_response : Option MfaTokenResponse
  pub user_credentials : Option GetUserCredentials
  pub add_ssh_key : Option AddSshKey

unfoldable pub get_assume_role : Option ServerRequest → Option AssumeRole
get_assume_role none = none
get_assume_role (some m) = m.assume_role

unfoldable pub get_challenge_response : Option ServerRequest → Option SshChallengeResponse
get_challenge_response none = none
get_challenge_response (some m) = m.challenge_response

unfoldable pub get_token_response : Option ServerRequest → Option MfaTokenResponse
get_token_response none = none
get_token_response (some m) = m.token_response

unfoldable pub get_user_credentials : Option ServerRequest → Option GetUserCredentials
get_user_credentials none = none
get_user_credentials (some m) = m.user_credentials

unfoldable pub get_add_ssh_key : Option ServerRequest → Option AddSshKey
get_add_ssh_key none = none
get_add_ssh_key (some m) = m.add_ssh_key

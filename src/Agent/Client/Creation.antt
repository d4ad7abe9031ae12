-- ===== src/Agent/Client/Creation.antt =====
-- agent/client.go: `NewClient` and `AccessKeyClient`. The AWS SDK is a parameter.
use hologram.Prelude.{ℕ, String, Option, none, some, get_elem?}
use hologram.Prelude.Go.{Error, Bytes, Result, Go, pure, panics, ◌>>=◌}
use hologram.Prelude.Text.{split}
use hologram.Protocol.Message.{Message}
use hologram.Protocol.Connection.{Conn}
use hologram.Server.Types.{Signature, CredentialService}
use hologram.Server.Credentials.{Aliases, Sts, DirectSessionTokenService, direct_service}
use hologram.Agent.Client.{CredentialsReceiver, Client, client, access_key_client}

-- `NewClient`: the connection is dialled anew for each request.
unfoldable pub new_client :
    {W : Type 0}
    → (Bytes → ℕ → Go W (Result (Option Signature)))
    → (Message → String)
    → (String → Go W (Result Conn))
    → String
    → CredentialsReceiver W
    → Client W
new_client sign show dial connection_string cr = client sign show cr (dial connection_string)

-- package iam's `User`, whose fields are pointers
pub record IamUser : Type 0 where
  pub arn : Option String
  pub user_name : Option String

-- What a session with AWS gives: STS, and the user of `GetUser`, which may come with an error.
pub record Aws (W : Type 0) : Type 0 where
  pub sts : Sts W
  pub get_user : Go W (Option IamUser × Option Error)

-- server/credentials.go: `NewDirectSessionTokenService`
unfoldable pub new_direct_session_token_service :
    {W : Type 0} → String → Sts W → Option Aliases → DirectSessionTokenService W
new_direct_session_token_service iam_account sts account_aliases = record {
  iam_account = iam_account;
  sts = sts;
  account_aliases = account_aliases;
}

-- strings.Split(*iamUser.User.Arn, ":")[4]
abbrev pub iam_account : Option String → Option String
iam_account none = none
iam_account (some arn) = get_elem? (split b':' arn) 4

module _ {W : Type 0} (aws : Aws W) (cr : CredentialsReceiver W) (aliases : Option Aliases) where
  abbrev pub service : String → CredentialService (Unit {0}) W
  service account = direct_service (new_direct_session_token_service account aws.sts aliases)

  -- A nil pointer and an index that is out of range panic.
  abbrev pub with_parts : Option String → Option String → Go W (Client W)
  with_parts (some account) (some name) = pure (access_key_client (service account) name cr)
  with_parts _ _ = panics

  -- The error of `GetUser` is only logged.
  abbrev pub with_user : Option IamUser × Option Error → Go W (Client W)
  with_user (none, e) = panics
  with_user (some user, e) = with_parts (iam_account user.arn) user.user_name

  -- `AccessKeyClient`
  unfoldable pub new_access_key_client : Go W (Client W)
  new_access_key_client = aws.get_user >>= with_user

-- ===== src/Tests/Credentials.antt =====
-- The theorems on server/credentials.go and server/persistent_ldap.go at concrete inputs.
use hologram.Prelude.{ℕ, ◌+◌, ◌≡◌, ◌⊎◌, true, some, [], ◌∷◌}
use hologram.Prelude.Go.{ret, err, ok}
use hologram.Server.Credentials.{
  Aliases, arn_of, assume_role, role_input, not_authorized, DirectSessionTokenService,
}
use hologram.Server.Credentials.Access.{Has, assume_role_authorized}
use hologram.Tests.Fixtures.{alice, creds}

abbrev aliases : Aliases
aliases = ("prod", "arn:aws:iam::999") ∷ []

abbrev service : DirectSessionTokenService ℕ
service = record {
  iam_account = "123";
  sts = record {
    assume_role = λ input w. (ret (ok (some creds)), w + 1);
    get_session_token = λ w. (ret (ok (some creds)), w + 1);
  };
  account_aliases = some aliases;
}

assume_role_authorized_example :
    (Has service alice.arns "engineer"
      × (assume_role service alice "engineer" true 0
          ≡ service.sts.assume_role (role_input alice (arn_of service "engineer")) 0))
    ⊎ ((¬ Has service alice.arns "engineer")
        × (assume_role service alice "engineer" true 0
            ≡ (ret (err (not_authorized alice (arn_of service "engineer"))), 0)))
assume_role_authorized_example = assume_role_authorized service alice "engineer" 0

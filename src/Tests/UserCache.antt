-- ===== src/Tests/UserCache.antt =====
-- The theorems on server/usercache.go at concrete inputs.
use hologram.Prelude.{ℕ, ◌≡◌, ◌⊎◌, true, false, some, none, [], ◌∷◌, ◌==◌, Bool}
use hologram.Prelude.Go.{Bytes, ok, ret}
use hologram.Server.Types.{User, Signature}
use hologram.Server.UserCache.{Ssh, Config, Cache, update, authenticate}
use hologram.Server.UserCache.Signing.{IsOrder, IsAnswer, Second, missed, authenticate-answers}
use hologram.Server.UserCache.Updating.{Updated, update-Updated}
use hologram.Tests.Fixtures.{alice, ldap_server}

-- The key of a signature is its first byte.
abbrev signed_by : ℕ → Bytes → Signature → Bool
signed_by key challenge signature = elim signature.blob [
  | none ↦ false
  | some bytes ↦ elim bytes [ [] ↦ false | b ∷ bs ↦ b == key ]
]

abbrev pub ssh : Ssh ℕ
ssh = record {
  parse_public_key = λ bytes. none;
  parse_authorized_key = λ bytes. none;
  verify = signed_by;
}

abbrev pub config : Config
config = record {
  user_attr = "cn";
  ssh_attr = "sshPublicKey";
  base_dn = "dc=example";
  enable_ldap_roles = true;
  role_attribute = "roles";
  default_role = "engineer";
  default_role_attr = "role";
}

abbrev pub cache : Cache ℕ ℕ
cache = record {
  users = ("alice", alice) ∷ [];
  groups = [];
  counters = [];
  timings = [];
  iterations = 0;
  world = 0;
}

abbrev by_bob : Signature
by_bob = record { format = "ssh-rsa"; blob = some (2 ∷ []) }

pub as_stored : (n : ℕ) → IsOrder {Key = ℕ} (λ d. d)
as_stored n P users = (λ h. h, λ h. h)

authenticate-answers_example :
    ((user : User ℕ) × IsAnswer ssh (7 ∷ []) by_bob cache.users (some user)
      × (authenticate ssh (λ n d. d) config ldap_server "derp" (7 ∷ []) by_bob cache
          ≡ (ret (ok (some user)), record cache { iterations = 1 })))
    ⊎ (IsAnswer ssh (7 ∷ []) by_bob cache.users none
        × Second ssh
            (7 ∷ [])
            by_bob
            (update ssh (λ n d. d) config ldap_server (missed cache))
            (authenticate ssh (λ n d. d) config ldap_server "derp" (7 ∷ []) by_bob cache))
authenticate-answers_example =
    authenticate-answers ssh (λ n d. d) as_stored config ldap_server (7 ∷ []) by_bob "derp" cache

update-Updated_example :
    Updated ssh
      (λ n d. d)
      config
      ldap_server
      cache.users
      (update ssh (λ n d. d) config ldap_server cache)
update-Updated_example = update-Updated ssh (λ n d. d) config ldap_server cache

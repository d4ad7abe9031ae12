-- ===== src/Tests/Sharing.antt =====
-- The theorem on the order of the user cache's map at a concrete input.
use hologram.Prelude.{ℕ, ◌≡◌, refl, sym, ◌∙◌, inl, inr, some, none, [], ◌∷◌, Some}
use hologram.Prelude.Go.{ret, ◌>>=◌}
use hologram.Prelude.Dict.{Dict}
use hologram.Server.Types.{User, Signature, LdapImplementation, failed, other_error}
use hologram.Server.UserCache.{Cache, update, update_users, authenticate}
use hologram.Server.UserCache.Signing.{IsOrder, Signs, missed}
use hologram.Server.UserCache.Sharing.{HasOneSigner, authenticate_order}
use hologram.Tests.Fixtures.{alice}
use hologram.Tests.UserCache.{ssh, config, as_stored}

abbrev bob : User ℕ
bob = record alice { username = "bob"; ssh_keys = 2 ∷ [] }

abbrev two_users : Cache ℕ ℕ
two_users = record {
  users = ("alice", alice) ∷ ("bob", bob) ∷ [];
  groups = [];
  counters = [];
  timings = [];
  iterations = 0;
  world = 0;
}

abbrev by_bob : Signature
by_bob = record { format = "ssh-rsa"; blob = some (2 ∷ []) }

-- The map with its first two entries swapped.
abbrev swapped : Dict (User ℕ) → Dict (User ℕ)
swapped (p ∷ q ∷ rest) = q ∷ p ∷ rest
swapped [] = []
swapped (p ∷ []) = p ∷ []

swapped-IsOrder : (n : ℕ) → IsOrder {Key = ℕ} swapped
swapped-IsOrder n P [] = (λ h. h, λ h. h)
swapped-IsOrder n P (p ∷ []) = (λ h. h, λ h. h)
swapped-IsOrder n P (p ∷ q ∷ rest) = (
  λ h. elim h [ inl a ↦ inr (inl a) | inr b ↦ elim b [ inl c ↦ inl c | inr d ↦ inr (inr d) ] ],
  λ h. elim h [ inl a ↦ inr (inl a) | inr b ↦ elim b [ inl c ↦ inl c | inr d ↦ inr (inr d) ] ],
)

-- Alice has no key that signed.
only_bob :
    (u : User ℕ)
    → Some (λ p. p.1 ≡ u) two_users.users
    → Signs ssh (7 ∷ []) by_bob u.ssh_keys
    → u ≡ bob
only_bob u (inl e) signs =
    absurd (elim (rw (← e) at signs) [ inl wrong ↦ cc wrong | inr more ↦ more ])
only_bob u (inr (inl e)) signs = sym e
only_bob u (inr (inr more)) signs = absurd more

one_signer : HasOneSigner ssh (7 ∷ []) by_bob two_users.users
one_signer u v ku su kv sv = only_bob u ku su ∙ sym (only_bob v kv sv)

-- LDAP does not answer.
abbrev ldap_down : LdapImplementation ℕ
ldap_down = record {
  search = λ r w. (ret (failed (other_error "network error")), w);
  modify = λ r w. (ret none, w);
}

same_users : (update ssh (λ n d. d) config ldap_down (missed two_users)).1.users ≡ two_users.users
unfolding update update_users ◌>>=◌
same_users = refl

authenticate_order_example :
    authenticate ssh (λ n d. d) config ldap_down "derp" (7 ∷ []) by_bob two_users
    ≡ authenticate ssh (λ n. swapped) config ldap_down "derp" (7 ∷ []) by_bob two_users
authenticate_order_example =
    authenticate_order ssh (λ n d. d) (λ n. swapped) as_stored swapped-IsOrder config ldap_down
      (7 ∷ []) by_bob "derp" two_users one_signer (rw same_users one_signer)

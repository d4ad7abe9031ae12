-- ===== src/Server/UserCache/Sharing.antt =====
-- Whether the order in which server/usercache.go runs through its map of users matters.
use hologram.Prelude.{◌≡◌, refl, ap, inl, inr, ℕ, ◌+◌, String, Option, none, some, [], ◌∷◌, Some}
use hologram.Prelude.Go.{Bytes, ok, Outcome, ret, panic, out_of_fuel, pure, continue, ◌>>=◌}
use hologram.Prelude.Dict.{Dict}
use hologram.Server.Types.{Signature, User, LdapError, LdapImplementation}
use hologram.Server.UserCache.{
  Ssh, Config, Cache, first_signer, update, update_users, verify, again, authenticate,
}
use hologram.Server.UserCache.Signing.{IsOrder, Signs, IsAnswer, missed, verify-IsAnswer}

module _ {Key : Type 0} (ssh : Ssh Key) (challenge : Bytes) (signature : Signature) where
  -- No two users of the map have keys that made the signature.
  abbrev pub HasOneSigner : Dict (User Key) → Type 0
  HasOneSigner users =
      (u v : User Key)
      → Some (λ p. p.1 ≡ u) users
      → Signs ssh challenge signature u.ssh_keys
      → Some (λ p. p.1 ≡ v) users
      → Signs ssh challenge signature v.ssh_keys
      → u ≡ v

  signer_known :
      (u : User Key) (users : Dict (User Key))
      → Some (λ p. p.1 ≡ u) users
      → Signs ssh challenge signature u.ssh_keys
      → Some (λ p. Signs ssh challenge signature p.1.ssh_keys) users
  signer_known u [] h s = h
  signer_known u (p ∷ users) (inl e) s = inl (rw e s)
  signer_known u (p ∷ users) (inr h) s = inr (signer_known u users h s)

  one_answer :
      (users : Dict (User Key)) (a b : Option (User Key))
      → HasOneSigner users
      → IsAnswer ssh challenge signature users a
      → IsAnswer ssh challenge signature users b
      → a ≡ b
  one_answer users none none one ha hb = refl
  one_answer users none (some v) one ha (known, signs) =
      absurd (ha (signer_known v users known signs))
  one_answer users (some u) none one (known, signs) hb =
      absurd (hb (signer_known u users known signs))
  one_answer users (some u) (some v) one (ku, su) (kv, sv) = ap some (one u v ku su kv sv)

module _ {Key W : Type 0} (ssh : Ssh Key) (order order' : ℕ → Dict (User Key) → Dict (User Key))
    (same : (n : ℕ) → IsOrder (order n)) (same' : (n : ℕ) → IsOrder (order' n)) (config : Config)
    (server : LdapImplementation W) (challenge : Bytes) (signature : Signature) where
  update_order :
      (s : Cache Key W) → update ssh order config server s ≡ update ssh order' config server s
  unfolding update update_users
  update_order s = refl

  first_signer_order :
      (s : Cache Key W)
      → HasOneSigner ssh challenge signature s.users
      → first_signer ssh (order s.iterations s.users) challenge signature
        ≡ first_signer ssh (order' s.iterations s.users) challenge signature
  first_signer_order s one =
      one_answer ssh challenge signature s.users _ _ one
        (verify-IsAnswer ssh order same config server challenge signature s)
        (verify-IsAnswer ssh order' same' config server challenge signature s)

  verify_order :
      (s : Cache Key W)
      → HasOneSigner ssh challenge signature s.users
      → verify ssh order config server challenge signature s
        ≡ verify ssh order' config server challenge signature s
  unfolding verify
  verify_order s one = rw (first_signer_order s one) refl

  look_again_order :
      (o : Outcome (Option LdapError)) (s : Cache Key W)
      → HasOneSigner ssh challenge signature s.users
      → continue o
          (λ _. verify ssh order config server challenge signature >>= (λ found. pure (ok found)))
          s
        ≡ continue o
            (λ _.
              verify ssh order' config server challenge signature >>= (λ found. pure (ok found)))
            s
  unfolding ◌>>=◌
  look_again_order (ret e) s one = rw (verify_order s one) refl
  look_again_order panic s one = refl
  look_again_order out_of_fuel s one = refl

  again_order :
      (found : Option (User Key)) (s : Cache Key W)
      → HasOneSigner ssh challenge signature (update ssh order config server (missed s)).1.users
      → again ssh order config server challenge signature found
          (record s { iterations = s.iterations + 1 })
        ≡ again ssh order' config server challenge signature found
            (record s { iterations = s.iterations + 1 })
  unfolding ◌>>=◌
  again_order (some user) s one = refl
  again_order none s one = rw (← update_order (missed s)) (look_again_order _ _ one)

  -- If no two users of the cache have keys that made the signature, neither before nor after an update,
  -- the order in which the loops take the entries of the map changes nothing: the answer, and all that is
  -- left in the cache, are the same for any two orders.
  pub authenticate_order :
      (username : String) (s : Cache Key W)
      → HasOneSigner ssh challenge signature s.users
      → HasOneSigner ssh challenge signature (update ssh order config server (missed s)).1.users
      → authenticate ssh order config server username challenge signature s
        ≡ authenticate ssh order' config server username challenge signature s
  unfolding authenticate verify ◌>>=◌
  authenticate_order username s one later = rw (first_signer_order s one) (again_order _ s later)

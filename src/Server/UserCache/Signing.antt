-- ===== src/Server/UserCache/Signing.antt =====
-- Whom `Authenticate` of server/usercache.go takes for the author of a signature.
use hologram.Prelude.{
  ◌≡◌, refl, ◌↔◌, ◌⊎◌, inl, inr, ℕ, ◌+◌, String, true, false, Option, none, some, List, [], ◌∷◌,
  ◌++◌, Bool-cases, Some, arith,
}
use hologram.Prelude.Go.{Bytes, Result, ok, Outcome, ret, panic, out_of_fuel, pure, continue, ◌>>=◌}
use hologram.Prelude.Dict.{Dict}
use hologram.Server.Types.{Signature, User, LdapError, LdapImplementation}
use hologram.Server.UserCache.{
  Ssh, Config, Cache, verifies, first_signer, update, verify, again, authenticate,
}

-- The order of a loop is an order of the same entries.
abbrev pub IsOrder : {Key : Type 0} → (Dict (User Key) → Dict (User Key)) → Type 1
IsOrder {Key} f =
    (P : String × User Key → Type 0) (users : Dict (User Key)) → Some P (f users) ↔ Some P users

module _ {Key : Type 0} (ssh : Ssh Key) (challenge : Bytes) (signature : Signature) where
  -- One of the keys made the signature.
  abbrev pub Signs : List Key → Type 0
  Signs = Some (λ key. ssh.verify key challenge signature ≡ true)

  -- An answer is right for a map of users: it is a user of the map with a key that made the
  -- signature, or there is no such user.
  abbrev pub IsAnswer : Dict (User Key) → Option (User Key) → Type 0
  IsAnswer users (some user) = Some (λ p. p.1 ≡ user) users × Signs user.ssh_keys
  IsAnswer users none = ¬ Some (λ p. Signs p.1.ssh_keys) users

  verifies-Signs : (keys : List Key) → verifies ssh keys challenge signature ≡ true → Signs keys
  unfolding verifies
  verifies-Signs [] h = cc
  verifies-Signs (key ∷ keys) h = elim (Bool-cases (ssh.verify key challenge signature)) [
    | inl e ↦ inl e
    | inr n ↦ inr (verifies-Signs keys (rw n at h))
  ]

  Signs-verifies : (keys : List Key) → Signs keys → verifies ssh keys challenge signature ≡ true
  unfolding verifies
  Signs-verifies [] h = absurd h
  Signs-verifies (key ∷ keys) (inl e) = rw e
  Signs-verifies (key ∷ keys) (inr h) = ground (arith, Signs-verifies keys h)

  -- A user in front that did not sign changes no answer.
  later-IsAnswer :
      (name : String) (user : User Key) (users : Dict (User Key)) (found : Option (User Key))
      → verifies ssh user.ssh_keys challenge signature ≡ false
      → IsAnswer users found
      → IsAnswer ((name, user) ∷ users) found
  later-IsAnswer name user users (some u) n (known, signs) = (inr known, signs)
  later-IsAnswer name user users none n h = elim [
    | inl s ↦ cc (Signs-verifies user.ssh_keys s, n)
    | inr later ↦ h later
  ]

  first_signer-IsAnswer :
      (users : Dict (User Key)) → IsAnswer users (first_signer ssh users challenge signature)
  unfolding first_signer
  first_signer-IsAnswer [] = λ h. h
  first_signer-IsAnswer ((name, user) ∷ users) =
      elim (Bool-cases (verifies ssh user.ssh_keys challenge signature)) [
        | inl e ↦ rw e (inl refl, verifies-Signs user.ssh_keys e)
        | inr n ↦ rw n (later-IsAnswer name user users _ n (first_signer-IsAnswer users))
      ]

  reorder-IsAnswer :
      (f : Dict (User Key) → Dict (User Key)) (users : Dict (User Key)) (found : Option (User Key))
      → IsOrder f
      → IsAnswer (f users) found
      → IsAnswer users found
  reorder-IsAnswer f users (some u) same (known, signs) = ((same _ users).0 known, signs)
  reorder-IsAnswer f users none same h = λ s. h ((same _ users).1 s)

  -- A second look at the users of an updated cache.
  abbrev pub Second :
      {W : Type 0}
      → Outcome (Option LdapError) × Cache Key W
      → Outcome (Result (Option (User Key))) × Cache Key W
      → Type 0
  Second (ret e, s) run =
      (found : Option (User Key)) × IsAnswer s.users found
      × (run ≡ (ret (ok found), record s { iterations = s.iterations + 1 }))
  Second (panic, s) run = run ≡ (panic, s)
  Second (out_of_fuel, s) run = run ≡ (out_of_fuel, s)

-- The cache that a miss is followed by an update of.
abbrev pub missed : {Key W : Type 0} → Cache Key W → Cache Key W
missed s = record s { iterations = s.iterations + 1; counters = s.counters ++ "ldapCacheMiss" ∷ [] }

module _ {Key W : Type 0} (ssh : Ssh Key) (order : ℕ → Dict (User Key) → Dict (User Key))
    (same : (n : ℕ) → IsOrder (order n)) (config : Config) (server : LdapImplementation W)
    (challenge : Bytes) (signature : Signature) where
  pub verify-IsAnswer :
      (s : Cache Key W)
      → IsAnswer ssh challenge signature s.users
          (first_signer ssh (order s.iterations s.users) challenge signature)
  verify-IsAnswer s =
      reorder-IsAnswer ssh challenge signature (order s.iterations) s.users _ (same s.iterations)
        (first_signer-IsAnswer ssh challenge signature (order s.iterations s.users))

  look_again :
      Outcome (Option LdapError) × Cache Key W → Outcome (Result (Option (User Key))) × Cache Key W
  look_again (o, s) =
      continue o
        (λ _. verify ssh order config server challenge signature >>= (λ found. pure (ok found))) s

  look_again-Second : (run : _) → Second ssh challenge signature run (look_again run)
  unfolding look_again verify ◌>>=◌
  look_again-Second (ret e, s) = (_, verify-IsAnswer s, refl)
  look_again-Second (panic, s) = refl
  look_again-Second (out_of_fuel, s) = refl

  again-answers :
      (s : Cache Key W) (found : Option (User Key))
      → IsAnswer ssh challenge signature s.users found
      → let run =
          again ssh order config server challenge signature found
            (record s { iterations = s.iterations + 1 }) in
        ((user : User Key) × IsAnswer ssh challenge signature s.users (some user)
          × (run ≡ (ret (ok (some user)), record s { iterations = s.iterations + 1 })))
        ⊎ (IsAnswer ssh challenge signature s.users none
            × Second ssh challenge signature (update ssh order config server (missed s)) run)
  unfolding look_again ◌>>=◌
  again-answers s (some user) h = inl (user, h, refl)
  again-answers s none h = inr (h, look_again-Second (update ssh order config server (missed s)))

  -- Whatever name the client gives: if a user in the cache has a key that made the signature, such a
  -- user is returned and nothing is updated. Otherwise the cache is updated, and the answer, never an
  -- error, is right for the users that are in it then; a panic of the update is passed on.
  pub authenticate-answers :
      (username : String) (s : Cache Key W)
      → ((user : User Key) × IsAnswer ssh challenge signature s.users (some user)
          × (authenticate ssh order config server username challenge signature s
              ≡ (ret (ok (some user)), record s { iterations = s.iterations + 1 })))
        ⊎ (IsAnswer ssh challenge signature s.users none
            × Second ssh challenge signature
                (update ssh order config server (missed s))
                (authenticate ssh order config server username challenge signature s))
  unfolding authenticate verify ◌>>=◌
  authenticate-answers username s = again-answers s _ (verify-IsAnswer s)

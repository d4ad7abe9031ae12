-- ===== src/Server/PersistentLdap/Transparent.antt =====
-- What server/persistent_ldap.go makes of a search whose connection is lost.
use hologram.Prelude.{ℕ, ◌≡◌, ◌≢◌, refl, ◌⊎◌, inl, inr, ◌==◌, ==_iff, Bool-cases, false}
use hologram.Prelude.Go.{Error, Outcome, ret, panic, out_of_fuel, Go, continue, ◌>>=◌}
use hologram.Server.Types.{
  SearchRequest, LdapError, ldap_error, other_error, Searched, entries, failed, LdapImplementation,
}
use hologram.Server.PersistentLdap.{Opened, opened, Persistent, refresh, after_search, search}

module _ {W : Type 0} (error_network : ℕ) (directory : LdapImplementation W) where
  -- An error of the directory itself is an `*ldap.Error`, and none of the network.
  abbrev pub IsOwnError : LdapError → Type 0
  IsOwnError (ldap_error code e) = code ≢ error_network
  IsOwnError (other_error e) = ⊥

  abbrev pub SearchIsOwn : Outcome Searched → Type 0
  SearchIsOwn (ret (failed e)) = IsOwnError e
  SearchIsOwn _ = Unit

  pub record IsDirectory : Type 0 where
    pub search : (r : SearchRequest) (w : W) → SearchIsOwn (directory.search r w).0

  -- A search on the connection is answered by the directory.
  pub record Serves (c : LdapImplementation W) (w : W) : Type 0 where
    pub search : (r : SearchRequest) → c.search r w ≡ directory.search r w

  -- A connection to the directory, each search on which may be lost.
  pub record Connects (c : LdapImplementation W) : Type 0 where
    pub search :
        (r : SearchRequest) (w : W)
        → (c.search r w ≡ directory.search r w)
          ⊎ ((e : Error) × (c.search r w ≡ (ret (failed (ldap_error error_network e)), w)))

  -- A new connection can be opened at any time, and the first search on it is not lost.
  abbrev pub Opens : Go W (Opened W) → Type 0
  Opens open_conn =
      (w : W)
      → (c : LdapImplementation W) × (open_conn w ≡ (ret (opened c), w)) × Connects c × Serves c w

  -- In each state over a connection to the directory the code does what the directory does, and leaves a
  -- state over such a connection.
  pub record Refines {A : Type 0} (m : Go (Persistent W) A) (d : Go W A) : Type 0 where
    pub at :
        (s : Persistent W)
        → Connects s.conn
        → (c : LdapImplementation W) × Connects c
          × (m s ≡ ((d s.world).0, record { conn = c; world = (d s.world).1 }))

  module _ (open_conn : Go W (Opened W)) (opens : Opens open_conn) (own : IsDirectory) where
    not_network : (code : ℕ) → code ≢ error_network → code == error_network ≡ false
    not_network code h = elim (Bool-cases (code == error_network)) [
      | inl e ↦ absurd (h ((==_iff code error_network).0 e))
      | inr e ↦ e
    ]

    -- A result of the directory is passed on.
    after_search_own :
        (r : SearchRequest) (o : Outcome Searched) (s : Persistent W)
        → SearchIsOwn o
        → continue o (after_search error_network open_conn r) s ≡ (o, s)
    after_search_own r (ret (entries es)) s h = refl
    after_search_own r (ret (failed (ldap_error code e))) s h = rw (not_network code h) refl
    after_search_own r (ret (failed (other_error e))) s h = absurd h
    after_search_own r panic s h = refl
    after_search_own r out_of_fuel s h = refl

    pub search-Refines :
        (r : SearchRequest) → Refines (search error_network open_conn r) (directory.search r)
    unfolding search refresh ◌>>=◌
    search-Refines r = record {
      at = λ s h. elim (h.search r s.world) [
        | inl e ↦ (
          s.conn,
          h,
          rw e (after_search_own r (directory.search r s.world).0 _ (own.search r s.world)),
        )
        | inr lost ↦
            let (c, opened_c, hc, serves) = opens s.world in
            (
              c,
              hc,
              rw lost.1 (
                  rw ((==_iff error_network error_network).1 refl)
                    (rw opened_c (rw (serves.search r) refl))),
            )
      ];
    }

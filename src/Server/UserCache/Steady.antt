-- ===== src/Server/UserCache/Steady.antt =====
-- The user cache of server/usercache.go over the connection of server/persistent_ldap.go.
use hologram.Prelude.{ℕ, ◌≡◌, refl, String, Bool, true, false, Option, none, some, if◌then◌else◌}
use hologram.Prelude.Go.{Bytes, ok, Outcome, ret, panic, out_of_fuel, Go, pure, continue, ◌>>=◌}
use hologram.Prelude.Dict.{Dict}
use hologram.Server.Types.{
  Signature, User, SearchRequest, Searched, entries, failed, LdapImplementation,
}
use hologram.Server.UserCache.{
  Ssh, Config, Cache, key_search, group_search, ask, store_users, update_users, store_groups,
  update, verify, again, authenticate,
}
use hologram.Server.PersistentLdap.{Opened, Persistent, persistent_ldap}
use hologram.Server.PersistentLdap.Transparent.{IsDirectory, Connects, Opens, search-Refines}

module _ {Key W : Type 0} where
  -- The cache over the directory itself.
  abbrev pub below : Cache Key (Persistent W) → Cache Key W
  below s = record {
    users = s.users;
    groups = s.groups;
    counters = s.counters;
    timings = s.timings;
    iterations = s.iterations;
    world = s.world.world;
  }

  -- The cache over a connection.
  abbrev pub over : LdapImplementation W → Cache Key W → Cache Key (Persistent W)
  over c t = record {
    users = t.users;
    groups = t.groups;
    counters = t.counters;
    timings = t.timings;
    iterations = t.iterations;
    world = record { conn = c; world = t.world };
  }

module _ {Key W : Type 0} (error_network : ℕ) (directory : LdapImplementation W) where
  -- The code over a connection does what it does over the directory.
  record Steady {A : Type 0} (m : Go (Cache Key (Persistent W)) A) (d : Go (Cache Key W) A)
      : Type 0 where
    at :
        (s : Cache Key (Persistent W))
        → Connects error_network directory s.world.conn
        → (c : LdapImplementation W) × Connects error_network directory c
          × (m s ≡ ((d (below s)).0, over c (d (below s)).1))

  Steady-pure : {A : Type 0} (a : A) → Steady (pure a) (pure a)
  Steady-pure a = record { at = λ s h. (s.world.conn, h, refl) }

  Steady-continue :
      {A B : Type 0} {f : A → Go (Cache Key (Persistent W)) B} {g : A → Go (Cache Key W) B}
      (o : Outcome A) (s : Cache Key (Persistent W))
      → Connects error_network directory s.world.conn
      → ((a : A) → Steady (f a) (g a))
      → (c : LdapImplementation W) × Connects error_network directory c
        × (continue o f s ≡ ((continue o g (below s)).0, over c (continue o g (below s)).1))
  Steady-continue (ret a) s h k = (k a).at s h
  Steady-continue panic s h k = (s.world.conn, h, refl)
  Steady-continue out_of_fuel s h k = (s.world.conn, h, refl)

  Steady-bind :
      {A B : Type 0} {m : Go (Cache Key (Persistent W)) A} {d : Go (Cache Key W) A}
      {f : A → Go (Cache Key (Persistent W)) B} {g : A → Go (Cache Key W) B}
      → Steady m d
      → ((a : A) → Steady (f a) (g a))
      → Steady (m >>= f) (d >>= g)
  unfolding ◌>>=◌
  Steady-bind {m} {d} {f} {g} rm k = record {
    at = λ s h.
        let (c, hc, e) = rm.at s h in
        rw e (Steady-continue (d (below s)).0 (over c (d (below s)).1) hc k);
  }

  module _ (ssh : Ssh Key) (order : ℕ → Dict (User Key) → Dict (User Key)) (config : Config)
      (open_conn : Go W (Opened W)) (opens : Opens error_network directory open_conn)
      (own : IsDirectory error_network directory) where
    abbrev kept : LdapImplementation (Persistent W)
    kept = persistent_ldap error_network open_conn

    ask-Steady :
        (r : SearchRequest)
        → Steady (ask ssh order config kept r) (ask ssh order config directory r)
    ask-Steady r = record {
      at = λ s h.
          let (c, hc, e) =
            (search-Refines error_network directory open_conn opens own r).at s.world h in
          (c, hc, rw e refl);
    }

    store_users-Steady :
        (x : Searched)
        → Steady (store_users ssh order config kept x) (store_users ssh order config directory x)
    store_users-Steady (failed e) = Steady-pure (some e)
    store_users-Steady (entries es) = record { at = λ s h. (s.world.conn, h, refl) }

    update_users-Steady :
        Steady (update_users ssh order config kept) (update_users ssh order config directory)
    unfolding update_users
    update_users-Steady = Steady-bind (ask-Steady (key_search config)) (λ x. store_users-Steady x)

    store_groups-Steady :
        (x : Searched)
        → Steady (store_groups ssh order config kept x) (store_groups ssh order config directory x)
    store_groups-Steady (failed e) = Steady-pure (some e)
    store_groups-Steady (entries es) = record { at = λ s h. update_users-Steady.at _ h }

    Steady-if :
        {A : Type 0} (b : Bool) {m n : Go (Cache Key (Persistent W)) A} {d e : Go (Cache Key W) A}
        → Steady m d
        → Steady n e
        → Steady (if b then m else n) (if b then d else e)
    Steady-if true p q = p
    Steady-if false p q = q

    update-Steady : Steady (update ssh order config kept) (update ssh order config directory)
    unfolding update
    update-Steady =
        Steady-if config.enable_ldap_roles
          (Steady-bind (ask-Steady (group_search config)) (λ x. store_groups-Steady x))
          update_users-Steady

    module _ (challenge : Bytes) (signature : Signature) where
      verify-Steady :
          Steady
            (verify ssh order config kept challenge signature)
            (verify ssh order config directory challenge signature)
      unfolding verify
      verify-Steady = record { at = λ s h. (s.world.conn, h, refl) }

      again-Steady :
          (found : Option (User Key))
          → Steady
              (again ssh order config kept challenge signature found)
              (again ssh order config directory challenge signature found)
      again-Steady (some user) = Steady-pure (ok (some user))
      again-Steady none =
          Steady-bind (record { at = λ s h. (s.world.conn, h, refl) })
            (λ u.
              Steady-bind update-Steady
                (λ e. Steady-bind verify-Steady (λ found. Steady-pure (ok found))))

      -- The user cache over the connection that persistent_ldap.go keeps answers, and is left, as if it were
      -- over the directory itself, wherever connections are lost: if a lost call has not reached the
      -- directory, a new connection can always be opened and serves its first call, and the directory's own
      -- errors are not those of the network.
      pub authenticate-persistent_ldap :
          (username : String) (s : Cache Key (Persistent W))
          → Connects error_network directory s.world.conn
          → ((authenticate ssh order config kept username challenge signature s).0
              ≡ (authenticate ssh order config directory username challenge signature (below s)).0)
            × (below (authenticate ssh order config kept username challenge signature s).1
                ≡ (authenticate ssh order config directory username challenge signature
                    (below s)).1)
      unfolding authenticate
      authenticate-persistent_ldap username s h =
          let (c, hc, e) = (Steady-bind verify-Steady (λ found. again-Steady found)).at s h in
          (rw e refl, rw e refl)

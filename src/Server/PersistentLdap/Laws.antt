-- ===== src/Server/PersistentLdap/Laws.antt =====
-- What the calls of server/persistent_ldap.go return, by what the connections below return.
use hologram.Prelude.{ℕ, ◌≡◌, refl, ==_iff}
use hologram.Prelude.Go.{Error, ret, Go, ◌>>=◌}
use hologram.Server.Types.{SearchRequest, ldap_error, failed, LdapImplementation}
use hologram.Server.PersistentLdap.{Opened, opened, not_opened, Persistent, refresh, search}

module _ {W : Type 0} (error_network : ℕ) (open_conn : Go W (Opened W)) (r : SearchRequest)
    (s : Persistent W) where
  -- A search that fails with a network error opens a new connection, and if that succeeds keeps it and
  -- is made once more on it, with the result of that second search whatever it is.
  pub search_reopens :
      (e : Error) (c : LdapImplementation W) {w w' : W}
      → s.conn.search r s.world ≡ (ret (failed (ldap_error error_network e)), w)
      → open_conn w ≡ (ret (opened c), w')
      → search error_network open_conn r s
        ≡ ((c.search r w').0, record { conn = c; world = (c.search r w').1 })
  unfolding search refresh ◌>>=◌
  search_reopens e c a b = rw a (rw ((==_iff error_network error_network).1 refl) (rw b))

  -- If no new connection can be opened, the second search is made on the old one.
  pub search_not_opened :
      (e e' : Error) {w w' : W}
      → s.conn.search r s.world ≡ (ret (failed (ldap_error error_network e)), w)
      → open_conn w ≡ (ret (not_opened e'), w')
      → search error_network open_conn r s
        ≡ ((s.conn.search r w').0, record s { world = (s.conn.search r w').1 })
  unfolding search refresh ◌>>=◌
  search_not_opened e e' a b = rw a (rw ((==_iff error_network error_network).1 refl) (rw b))

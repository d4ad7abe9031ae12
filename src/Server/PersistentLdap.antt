-- ===== src/Server/PersistentLdap.antt =====
-- server/persistent_ldap.go: a connection to LDAP that is opened again after a network error.
pub mod Laws
pub mod Transparent
use hologram.Prelude.{ℕ, Option, none, some, ◌==◌, if◌then◌else◌}
use hologram.Prelude.Go.{Error, Result, ok, err, Go, pure, panics, ◌>>=◌}
use hologram.Server.Types.{
  SearchRequest, ModifyRequest, LdapError, ldap_error, other_error, Searched, entries, failed,
  LdapImplementation,
}

-- What opening a connection returns.
pub data Opened (W : Type 0) : Type 0 where
  opened : LdapImplementation W → Opened W
  not_opened : Error → Opened W

-- `persistentLDAP`: the connection in use, and the world behind all connections.
pub record Persistent (W : Type 0) : Type 0 where
  pub conn : LdapImplementation W
  pub world : W

-- `ErrorNetwork` is nmcclain/ldap's code of a network error, `open` dials and binds.
module _ {W : Type 0} (error_network : ℕ) (open_conn : Go W (Opened W)) where
  abbrev pub on_conn : {A : Type 0} → (LdapImplementation W → Go W A) → Go (Persistent W) A
  on_conn call s = let (o, w) = call s.conn s.world in (o, record s { world = w })

  abbrev pub keep_conn : Opened W → Go (Persistent W) (Option Error)
  keep_conn (not_opened e) s = (pure (some e)) s
  keep_conn (opened c) s = (pure none) (record s { conn = c })

  unfoldable pub refresh : Go (Persistent W) (Option Error)
  refresh = on_conn (λ _. open_conn) >>= keep_conn

  -- `err.(*ldap.Error)` panics for an error of another type.
  abbrev pub retry : {A : Type 0} → LdapError → A → Go (Persistent W) A → Go (Persistent W) A
  retry (other_error e) a again = panics
  retry (ldap_error code e) a again =
      if code == error_network then (refresh >>= λ _. again) else pure a

  abbrev pub search_conn : SearchRequest → Go (Persistent W) Searched
  search_conn r = on_conn (λ c. c.search r)

  abbrev pub after_search : SearchRequest → Searched → Go (Persistent W) Searched
  after_search r (entries es) = pure (entries es)
  after_search r (failed e) = retry e (failed e) (search_conn r)

  unfoldable pub search : SearchRequest → Go (Persistent W) Searched
  search r = search_conn r >>= after_search r

  abbrev pub modify_conn : ModifyRequest → Go (Persistent W) (Option LdapError)
  modify_conn r = on_conn (λ c. c.modify r)

  abbrev pub after_modify : ModifyRequest → Option LdapError → Go (Persistent W) (Option LdapError)
  after_modify r none = pure none
  after_modify r (some e) = retry e (some e) (modify_conn r)

  unfoldable pub modify : ModifyRequest → Go (Persistent W) (Option LdapError)
  modify r = modify_conn r >>= after_modify r

  abbrev pub persistent_ldap : LdapImplementation (Persistent W)
  persistent_ldap = record { search = search; modify = modify }

  abbrev pub first_conn : Opened W → Go W (Result (Persistent W))
  first_conn (not_opened e) w = (pure (err e)) w
  first_conn (opened c) w = (pure (ok (record { conn = c; world = w }))) w

  -- `NewPersistentLDAP`
  unfoldable pub new_persistent_ldap : Go W (Result (Persistent W))
  new_persistent_ldap = open_conn >>= first_conn

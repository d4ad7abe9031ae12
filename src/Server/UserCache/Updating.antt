-- ===== src/Server/UserCache/Updating.antt =====
-- What `Update` of server/usercache.go leaves in the cache.
use hologram.Prelude.{
  ◌≡◌, refl, ◌≢◌, ◌⊎◌, inl, inr, ℕ, String, Bool, true, false, Option, none, some, List, [], ◌∷◌,
  Bool-cases, str_eq, if◌then◌else◌,
}
use hologram.Prelude.Go.{Outcome, ret, panic, out_of_fuel, continue, ◌>>=◌}
use hologram.Prelude.Dict.{Dict, lookup, lookup-insert}
use hologram.Server.Types.{User, Entry, LdapError, Searched, entries, failed, LdapImplementation}
use hologram.Server.UserCache.{
  Ssh, Config, Cache, user_of, add_users, key_search, group_search, ask, store_users, store_groups,
  update_users, update,
}

-- The last entry of a search that is about a user.
abbrev pub keep_last : Bool → Entry → Option Entry → Option Entry
keep_last is_it entry (some later) = some later
keep_last true entry none = some entry
keep_last false entry none = none

abbrev pub last_entry : Config → String → List Entry → Option Entry
last_entry config name [] = none
last_entry config name (entry ∷ rest) =
    keep_last (str_eq (entry.attribute_value config.user_attr) name) entry
      (last_entry config name rest)

module _ {Key : Type 0} (ssh : Ssh Key) (config : Config) (groups : Dict (List String)) where
  -- What the map holds of a user after an update, by what it held and the user's last entry.
  abbrev pub refreshed : Option (User Key) → Option Entry → Option (User Key)
  refreshed old none = old
  refreshed old (some entry) = some (user_of ssh config groups entry)

  refreshed-keep_last :
      (name : String) (entry : Entry) (old : Option (User Key)) (later : Option Entry)
      → let is_it = str_eq (entry.attribute_value config.user_attr) name in
        refreshed (if is_it then some (user_of ssh config groups entry) else old) later
        ≡ refreshed old (keep_last is_it entry later)
  refreshed-keep_last name entry old (some later) = refl
  refreshed-keep_last name entry old none =
      elim (Bool-cases (str_eq (entry.attribute_value config.user_attr) name)) [
        | inl e ↦ rw e
        | inr e ↦ rw e
      ]

  lookup-add_users :
      (name : String) (es : List Entry) (users : Dict (User Key))
      → lookup name (add_users ssh config groups es users)
        ≡ refreshed (lookup name users) (last_entry config name es)
  unfolding add_users user_of
  lookup-add_users name [] users = refl
  lookup-add_users name (entry ∷ rest) users = rw (lookup-add_users name rest _) (
      rw (lookup-insert (entry.attribute_value config.user_attr) name _ users)
        (refreshed-keep_last name entry (lookup name users) (last_entry config name rest)))

module _ {Key W : Type 0} (ssh : Ssh Key) (order : ℕ → Dict (User Key) → Dict (User Key))
    (config : Config) (server : LdapImplementation W) where
  -- An update either reports no error, and then the map is refreshed from a search for keys, which
  -- takes nobody out of it; or it reports one or panics, and then the map of users is unchanged.
  abbrev pub Updated : Dict (User Key) → Outcome (Option LdapError) × Cache Key W → Type 0
  Updated users run =
      ((run.0 ≢ ret none) × (run.1.users ≡ users))
      ⊎ ((run.0 ≡ ret none)
          × ((w : W) × (es : List Entry) × (server.search (key_search config) w
                ≡ (ret (entries es), run.1.world))
              × ((name : String)
                  → lookup name run.1.users
                    ≡ refreshed ssh config run.1.groups (lookup name users)
                        (last_entry config name es))))

  not_none : (e : LdapError) → ret (some e) ≢ ret none
  not_none e h = cc h

  stored_users :
      (s : Cache Key W) (run : Outcome Searched × W)
      → server.search (key_search config) s.world ≡ run
      → Updated s.users
          (continue run.0 (store_users ssh order config server) (record s { world = run.1 }))
  stored_users s (ret (entries es), w) e =
      inr (refl, (s.world, es, e, λ name. lookup-add_users ssh config s.groups name es s.users))
  stored_users s (ret (failed x), w) e = inl (not_none x, refl)
  stored_users s (panic, w) e = inl ((λ h. cc h), refl)
  stored_users s (out_of_fuel, w) e = inl ((λ h. cc h), refl)

  update_users-Updated :
      (s : Cache Key W) → Updated s.users (update_users ssh order config server s)
  unfolding update_users ◌>>=◌
  update_users-Updated s = stored_users s (server.search (key_search config) s.world) refl

  stored_groups :
      (s : Cache Key W) (run : Outcome Searched × W)
      → Updated s.users
          (continue run.0 (store_groups ssh order config server) (record s { world = run.1 }))
  stored_groups s (ret (entries es), w) = update_users-Updated _
  stored_groups s (ret (failed x), w) = inl (not_none x, refl)
  stored_groups s (panic, w) = inl ((λ h. cc h), refl)
  stored_groups s (out_of_fuel, w) = inl ((λ h. cc h), refl)

  update_by_roles :
      (s : Cache Key W) (on : Bool)
      → Updated s.users (
          (if on
              then ask ssh order config server (group_search config)
                >>= store_groups ssh order config server
              else update_users ssh order config server)
            s)
  unfolding ◌>>=◌
  update_by_roles s true = stored_groups s (server.search (group_search config) s.world)
  update_by_roles s false = update_users-Updated s

  -- After an update without an error, the map of users gives for each name the user of the last entry
  -- that the search for keys found under it, with the roles of the stored groups, and where it found
  -- none still the user from before. After any other update the map is the one from before.
  pub update-Updated : (s : Cache Key W) → Updated s.users (update ssh order config server s)
  unfolding update ◌>>=◌
  update-Updated s = update_by_roles s config.enable_ldap_roles

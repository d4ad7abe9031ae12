-- ===== src/Server/UserCache/Origin.antt =====
-- Where the users and the roles come from that the cache of server/usercache.go holds.
use hologram.Prelude.{◌≡◌, refl, sym, inl, inr, ℕ, String, List, [], ◌∷◌, Some, All}
use hologram.Prelude.Go.{Outcome, ret, panic, out_of_fuel}
use hologram.Prelude.Keeps.{Keeps, Ensures, Any, Keeps-bind, Keeps-if}
use hologram.Prelude.Dict.{Dict, insert-All}
use hologram.Server.Types.{
  User, SearchRequest, Entry, Searched, entries, failed, LdapImplementation,
}
use hologram.Server.UserCache.{
  Ssh, Config, Cache, group_search, key_search, user_of, add_groups, add_users, ask, store_users,
  store_groups, update_users, update, new_ldap_user_cache,
}

module _ {W : Type 0} (server : LdapImplementation W) where
  -- A search with this request, in some state of what is outside, returned the entry.
  abbrev pub IsReported : SearchRequest → Entry → Type 0
  IsReported r entry =
      (w : W) × (w' : W) × (es : List Entry) × (server.search r w ≡ (ret (entries es), w'))
      × Some (λ e. e ≡ entry) es

  -- The directory reported each of the found entries.
  abbrev pub AllReported : SearchRequest → Searched → Type 0
  AllReported r (failed e) = Unit
  AllReported r (entries es) = All (IsReported r) es

module _ {P : Entry → Type 0} where
  All-members : (es : List Entry) → ((e : Entry) → Some (λ x. x ≡ e) es → P e) → All P es
  All-members [] f = tt
  All-members (e ∷ es) f = (f e (inl refl), All-members es (λ x h. f x (inr h)))

module _ {Key W : Type 0} (ssh : Ssh Key) (order : ℕ → Dict (User Key) → Dict (User Key))
    (config : Config) (server : LdapImplementation W) where
  -- An entry of a group that the directory reported has these roles.
  abbrev pub IsGroup : String × List String → Type 0
  IsGroup (dn, arns) =
      (entry : Entry) × IsReported server (group_search config) entry
      × (entry.dn ≡ dn)
      × (entry.attribute_values config.role_attribute ≡ arns)

  -- The user is made of an entry that the search for keys returned, and of groups that the search for
  -- groups returned.
  abbrev pub IsDirectoryUser : User Key → Type 0
  IsDirectoryUser user =
      (entry : Entry) × (groups : Dict (List String)) × IsReported server (key_search config) entry
      × All IsGroup groups
      × (user ≡ user_of ssh config groups entry)

  -- All that the cache holds comes from the directory.
  pub record IsFromDirectory (s : Cache Key W) : Type 0 where
    pub users_known : All (λ p. IsDirectoryUser p.1) s.users
    pub groups_known : All IsGroup s.groups

  add_groups-All :
      (es : List Entry) (groups : Dict (List String))
      → All (IsReported server (group_search config)) es
      → All IsGroup groups
      → All IsGroup (add_groups config es groups)
  unfolding add_groups
  add_groups-All [] groups r h = h
  add_groups-All (e ∷ es) groups r h =
      add_groups-All es _ r.1 (insert-All _ _ _ groups (e, r.0, refl, refl) h)

  add_users-All :
      (groups : Dict (List String)) (es : List Entry) (users : Dict (User Key))
      → All IsGroup groups
      → All (IsReported server (key_search config)) es
      → All (λ p. IsDirectoryUser p.1) users
      → All (λ p. IsDirectoryUser p.1) (add_users ssh config groups es users)
  unfolding add_users
  add_users-All groups [] users g r h = h
  add_users-All groups (e ∷ es) users g r h =
      add_users-All groups es _ g r.1 (insert-All _ _ _ users (e, groups, r.0, g, refl) h)

  reported :
      (r : SearchRequest) (w : W) (o : Outcome Searched) (w' : W)
      → server.search r w ≡ (o, w')
      → Ensures (AllReported server r) o
  reported r w (ret (failed e)) w' h = tt
  reported r w (ret (entries es)) w' h = All-members es (λ e m. (w, w', es, h, m))
  reported r w panic w' h = tt
  reported r w out_of_fuel w' h = tt

  -- The world behind the cache plays no part.
  pub IsFromDirectory-outside :
      (s : Cache Key W) (w : W) → IsFromDirectory s → IsFromDirectory (record s { world = w })
  IsFromDirectory-outside s w h = record {
    users_known = h.users_known;
    groups_known = h.groups_known;
  }

  Keeps-ask :
      (r : SearchRequest)
      → Keeps IsFromDirectory (AllReported server r) (ask ssh order config server r)
  Keeps-ask r = record { at = λ s h. (IsFromDirectory-outside s _ h, reported r s.world _ _ refl) }

  Keeps-store_users :
      (found : Searched)
      → AllReported server (key_search config) found
      → Keeps IsFromDirectory Any (store_users ssh order config server found)
  Keeps-store_users (failed e) r = record { at = λ s h. (h, tt) }
  Keeps-store_users (entries es) r = record {
    at = λ s h. (
      record {
        users_known = add_users-All s.groups es s.users h.groups_known r h.users_known;
        groups_known = h.groups_known;
      },
      tt,
    );
  }

  Keeps-update_users : Keeps IsFromDirectory Any (update_users ssh order config server)
  unfolding update_users
  Keeps-update_users = Keeps-bind (Keeps-ask (key_search config)) Keeps-store_users

  Keeps-store_groups :
      (found : Searched)
      → AllReported server (group_search config) found
      → Keeps IsFromDirectory Any (store_groups ssh order config server found)
  Keeps-store_groups (failed e) r = record { at = λ s h. (h, tt) }
  Keeps-store_groups (entries es) r = record {
    at = λ s h. Keeps-update_users.at _ (record {
      users_known = h.users_known;
      groups_known = add_groups-All es s.groups r h.groups_known;
    });
  }

  -- `Update` takes everything it stores from the directory.
  pub update-IsFromDirectory : Keeps IsFromDirectory Any (update ssh order config server)
  unfolding update
  update-IsFromDirectory =
      Keeps-if _ (Keeps-bind (Keeps-ask (group_search config)) Keeps-store_groups)
        Keeps-update_users

  -- A user in a cache that comes from the directory comes from there too.
  pub member-IsDirectoryUser :
      (user : User Key) (users : Dict (User Key))
      → Some (λ p. p.1 ≡ user) users
      → All (λ p. IsDirectoryUser p.1) users
      → IsDirectoryUser user
  member-IsDirectoryUser user [] m h = absurd m
  member-IsDirectoryUser user (p ∷ users) (inl e) h = rw (sym e) h.0
  member-IsDirectoryUser user (p ∷ users) (inr m) h = member-IsDirectoryUser user users m h.1

  -- The counts that the cache keeps play no part either.
  pub IsFromDirectory-counted :
      (s : Cache Key W) (n : ℕ) (counters : List String)
      → IsFromDirectory s
      → IsFromDirectory (record s { iterations = n; counters = counters })
  IsFromDirectory-counted s n counters h = record {
    users_known = h.users_known;
    groups_known = h.groups_known;
  }

  -- A new cache holds only what the directory returned.
  pub new_ldap_user_cache-IsFromDirectory :
      (counters timings : List String) (w : W)
      → IsFromDirectory (new_ldap_user_cache ssh order config server counters timings w).1
  unfolding new_ldap_user_cache
  new_ldap_user_cache-IsFromDirectory counters timings w =
      (update-IsFromDirectory.at _ (record { users_known = tt; groups_known = tt })).0

-- ===== src/Server/Handler/AddKey.antt =====
-- What `AddSSHkey` of server/server.go writes to LDAP, and what it answers.
use hologram.Prelude.{
  ◌≡◌, refl, ◌⊎◌, inl, inr, true, false, Option, none, some, List, [], ◌∷◌, ◌++◌, str_eq,
  str_eq_iff, Bool-cases,
}
use hologram.Prelude.Go.{Outcome, ret, panic, out_of_fuel, continue, ◌>>=◌}
use hologram.Protocol.Requests
use hologram.Protocol.Requests.{AddSshKey}
use hologram.Server.Types.{Entry, Searched, entries, failed, LdapError}
use hologram.Server.Handler.State.{Settings, State, Services, write_error}
use hologram.Server.Handler.Requests.{
  has_key, add_key, report_modify, check_password, with_search, handle_add_ssh_key, user_search,
  key_addition,
}

module _ {Key W : Type 0} (settings : Settings) (services : Services Key W) (msg : AddSshKey) where
  -- The conditions under which LDAP is changed: the first entry found has the password of the
  -- request and does not list its key.
  abbrev pub MayAdd : Searched → Entry → Type 0
  MayAdd found entry =
      (rest : List Entry) × (found ≡ entries (entry ∷ rest))
      × (entry.attribute_value "userPassword" ≡ Requests.get_passwordhash (some msg))
      × (has_key (Requests.get_sshkeybytes (some msg)) (entry.attribute_values settings.ssh_attr)
          ≡ false)

  -- What follows a `Modify` leaves the world alone.
  report_world :
      (o : Outcome (Option LdapError)) (s : State W)
      → (continue o report_modify s).1.world ≡ s.world
  unfolding write_error ◌>>=◌
  report_world (ret none) s = refl
  report_world (ret (some e)) s = refl
  report_world panic s = refl
  report_world out_of_fuel s = refl

  add_key-world :
      (entry : Entry) (s : State W)
      → has_key (Requests.get_sshkeybytes (some msg)) (entry.attribute_values settings.ssh_attr)
        ≡ false
      → (add_key settings services entry msg s).1.world
        ≡ (services.ldap_server.modify (key_addition settings services entry msg) s.world).1
  unfolding add_key ◌>>=◌
  add_key-world entry s h = rw (h, add_key) (report_world _ _)

  add_key-world_known :
      (entry : Entry) (s : State W)
      → has_key (Requests.get_sshkeybytes (some msg)) (entry.attribute_values settings.ssh_attr)
        ≡ true
      → (add_key settings services entry msg s).1.world ≡ s.world
  unfolding add_key ◌>>=◌
  add_key-world_known entry s h = rw (h, add_key)

  abbrev Guarded : Searched → State W → W → Type 0
  Guarded found s w =
      (w ≡ s.world)
      ⊎ ((entry : Entry) × MayAdd found entry
          × (w
              ≡ (services.ldap_server.modify (key_addition settings services entry msg) s.world).1))

  add_key-Guarded :
      (entry : Entry) (rest : List Entry) (s : State W)
      → entry.attribute_value "userPassword" ≡ Requests.get_passwordhash (some msg)
      → Guarded (entries (entry ∷ rest)) s (add_key settings services entry msg s).1.world
  add_key-Guarded entry rest s pass =
      elim (Bool-cases (
        has_key (Requests.get_sshkeybytes (some msg)) (entry.attribute_values settings.ssh_attr))) [
          | inl known ↦ inl (add_key-world_known entry s known)
          | inr new ↦ inr (entry, (rest, refl, pass, new), add_key-world entry s new)
        ]

  with_search-Guarded :
      (found : Searched) (s : State W)
      → Guarded found s (with_search settings services msg found s).1.world
  unfolding check_password write_error ◌>>=◌
  with_search-Guarded (failed e) s = inl refl
  with_search-Guarded (entries []) s = inl refl
  with_search-Guarded (entries (entry ∷ rest)) s =
      elim (Bool-cases
        (str_eq (entry.attribute_value "userPassword") (Requests.get_passwordhash (some msg)))) [
          | inl right ↦ rw right (add_key-Guarded entry rest s ((str_eq_iff _ _).0 right))
          | inr wrong ↦ rw wrong (inl refl)
        ]

  -- After a search that returns, LDAP is as the search has left it, or it was changed by one
  -- `Modify`, which adds the key of the request to the first entry found. In the second case the
  -- password hash of that entry is the one in the request, and the key is not among its keys.
  pub handle_add_ssh_key-guarded :
      (s : State W) {found : Searched} {w : W}
      → services.ldap_server.search (user_search settings services msg) s.world ≡ (ret found, w)
      → let after = (handle_add_ssh_key settings services msg s).1.world in
        (after ≡ w)
        ⊎ ((entry : Entry) × MayAdd found entry
            × (after
                ≡ (services.ldap_server.modify (key_addition settings services entry msg) w).1))
  unfolding handle_add_ssh_key ◌>>=◌
  handle_add_ssh_key-guarded s {found} {w} h = rw h (
      with_search-Guarded found
        (record s { counters = s.counters ++ "messages.addSSHKeyMsg" ∷ []; world = w }))

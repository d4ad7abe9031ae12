-- ===== src/Cmd/Server/Remembering.antt =====
-- The users that a running cmd/hologram-server keeps, and the credentials that it hands out.
use hologram.Prelude.{
  ◌≡◌, refl, ap, ◌∙◌, inl, inr, String, Option, none, some, List, [], ◌∷◌, Bool-cases,
}
use hologram.Prelude.Keeps.{Keeps, Any, Ensures-Any, Keeps-pure, Keeps-bind}
use hologram.Prelude.Dict.{Dict, lookup}
use hologram.Server.Types.{User, Entry}
use hologram.Server.UserCache
use hologram.Server.UserCache.{Cache, update}
use hologram.Server.UserCache.Updating.{refreshed, last_entry, update-Updated}
use hologram.Cmd.Server.Starting.{Environment, Online, cache_config, ldap_server}
use hologram.Cmd.Server.Events.{
  Event, debug_enable, debug_disable, reload_cache_sig_hup, cache_timeout_tick, terminate,
  update_cache, reload, shut_down, settings_change, serve,
}

-- The cache has a user of this name.
abbrev pub Knows : {Key W : Type 0} → String → Cache Key W → Type 0
Knows {Key = Key} name c = (user : User Key) × (lookup name c.users ≡ some user)

module _ {Key W : Type 0} (env : Environment Key W) where
  refreshed_user :
      (config : UserCache.Config) (groups : Dict (List String)) (old : User Key) (e : Option Entry)
      → (user : User Key) × (refreshed env.ssh config groups (some old) e ≡ some user)
  refreshed_user config groups old none = (old, refl)
  refreshed_user config groups old (some entry) = (_, refl)

module _ {Key W L : Type 0} (env : Environment Key W) (name : String) where
  update-Knows : (s : Online Key W L) → Knows name s.cache → Knows name (update_cache env s).1.cache
  update-Knows s (user, h) =
      elim (update-Updated env.ssh env.order (cache_config s.config) (ldap_server env s.config)
        s.cache) [
          | inl (bad, same) ↦ (user, ap (lookup name) same ∙ h)
          | inr (good, (w, es, found, at)) ↦
              let new =
                refreshed_user env (cache_config s.config) (update_cache env s).1.cache.groups user
                  (last_entry (cache_config s.config) name es) in
              (new.0, at name ∙ rw h new.1)
        ]

  abbrev KnowsOnline : Online Key W L → Type 0
  KnowsOnline s = Knows name s.cache

  Keeps-reload : Keeps KnowsOnline Any (reload {L = L} env)
  Keeps-reload =
      Keeps-bind {Q = Any} (record { at = λ s h. (update-Knows s h, Ensures-Any _) })
        (λ _ _. Keeps-pure tt tt)

  Keeps-settings_change :
      (event : Event) → Keeps KnowsOnline Any (settings_change {L = L} env event)
  unfolding settings_change
  Keeps-settings_change debug_enable = record { at = λ s h. (h, tt) }
  Keeps-settings_change debug_disable = record { at = λ s h. (h, tt) }
  Keeps-settings_change reload_cache_sig_hup = Keeps-reload
  Keeps-settings_change cache_timeout_tick = Keeps-reload
  Keeps-settings_change terminate = Keeps-pure tt tt

  Keeps-shut_down : Keeps KnowsOnline Any (shut_down {L = L} env)
  Keeps-shut_down = record {
    at = λ s h. elim (Bool-cases s.listening) [ inl e ↦ rw e (h, tt) | inr e ↦ rw e (h, tt) ];
  }

  Keeps-serve : (events : List Event) → Keeps KnowsOnline Any (serve {L = L} env events)
  unfolding serve
  Keeps-serve [] = Keeps-pure tt tt
  Keeps-serve (terminate ∷ events) = Keeps-shut_down
  Keeps-serve (debug_enable ∷ events) =
      Keeps-bind (Keeps-settings_change debug_enable) (λ _ _. Keeps-serve events)
  Keeps-serve (debug_disable ∷ events) =
      Keeps-bind (Keeps-settings_change debug_disable) (λ _ _. Keeps-serve events)
  Keeps-serve (reload_cache_sig_hup ∷ events) =
      Keeps-bind (Keeps-settings_change reload_cache_sig_hup) (λ _ _. Keeps-serve events)
  Keeps-serve (cache_timeout_tick ∷ events) =
      Keeps-bind (Keeps-settings_change cache_timeout_tick) (λ _ _. Keeps-serve events)

  -- A user whom the cache has once found stays in it, whatever signals and ticks come, however LDAP
  -- answers, and however the program ends.
  pub serve-Knows :
      (events : List Event) (s : Online Key W L)
      → Knows name s.cache
      → Knows name (serve env events s).1.cache
  serve-Knows events s h = ((Keeps-serve events).at s h).0

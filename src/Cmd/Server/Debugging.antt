-- ===== src/Cmd/Server/Debugging.antt =====
-- The signals by which cmd/hologram-server switches its debug mode.
use hologram.Prelude.{◌≡◌, refl, inl, inr, Bool, true, false, Option, List, [], ◌∷◌, Bool-cases}
use hologram.Prelude.Go.{Outcome, ret, panic, out_of_fuel, Go, pure, continue, ◌>>=◌}
use hologram.Log
use hologram.Log.{set_debug_mode, debug}
use hologram.Server.Types.{LdapError}
use hologram.Cmd.Server.Starting.{Environment, Online}
use hologram.Cmd.Server.Events.{
  Event, debug_enable, debug_disable, reload_cache_sig_hup, cache_timeout_tick, terminate,
  update_cache, reload, shut_down, settings_change, serve,
}

-- The debug mode that the last signal before the termination asks for.
abbrev pub last_mode : List Event → Bool → Bool
last_mode [] mode = mode
last_mode (terminate ∷ events) mode = mode
last_mode (debug_enable ∷ events) mode = last_mode events true
last_mode (debug_disable ∷ events) mode = last_mode events false
last_mode (reload_cache_sig_hup ∷ events) mode = last_mode events mode
last_mode (cache_timeout_tick ∷ events) mode = last_mode events mode

module _ {Key W L : Type 0} (env : Environment Key W) where
  -- The package and its mux agree on the mode.
  abbrev pub HasMode : Bool → Log.Package L → Type 0
  HasMode mode p = (p.debug_mode ≡ mode) × (p.internal_log.debug_mode ≡ mode)

  HasMode-set_debug_mode : (mode : Bool) (p : Log.Package L) → HasMode mode (set_debug_mode mode p)
  unfolding set_debug_mode
  HasMode-set_debug_mode mode p = (refl, refl)

  abbrev then_pure : Outcome (Option LdapError) → Go (Online Key W L) (Unit {0})
  then_pure o = continue o (λ _. pure tt)

  abbrev go_on :
      Outcome (Unit {0}) × Online Key W L
      → Go (Online Key W L) (Unit {0})
      → Outcome (Unit {0}) × Online Key W L
  go_on run k = continue run.0 (λ _. k) run.1

  -- What follows a reload that returns goes on with another cache only.
  by_outcome :
      (k : Go (Online Key W L) (Unit {0})) (o : Outcome (Option LdapError)) (s : Online Key W L)
      → (go_on (then_pure o s) k).0 ≡ ret tt
      → go_on (then_pure o s) k ≡ k s
  by_outcome k (ret r) s e = refl
  by_outcome k panic s e = absurd (cc e)
  by_outcome k out_of_fuel s e = absurd (cc e)

  after_reload :
      (k : Go (Online Key W L) (Unit {0})) (s : Online Key W L)
      → ((reload env >>= λ _. k) s).0 ≡ ret tt
      → (reload env >>= λ _. k) s ≡ k (update_cache env s).1
  unfolding ◌>>=◌
  after_reload k s e = by_outcome k (update_cache env s).0 (update_cache env s).1 e

  shut_down-log : (s : Online Key W L) → (shut_down env s).1.log ≡ s.log
  shut_down-log s = elim (Bool-cases s.listening) [ inl e ↦ rw e refl | inr e ↦ rw e refl ]

  -- Where the events are served without a panic, both debug switches of the log are at the end as the
  -- last signal before the termination asked, or as they were.
  pub serve-HasMode :
      (events : List Event) (mode : Bool) (s : Online Key W L)
      → HasMode mode s.log
      → (serve env events s).0 ≡ ret tt
      → HasMode (last_mode events mode) (serve env events s).1.log
  unfolding serve settings_change ◌>>=◌
  serve-HasMode [] mode s h e = h
  serve-HasMode (terminate ∷ events) mode s h e = rw (shut_down-log s) h
  serve-HasMode (debug_enable ∷ events) mode s h e =
      serve-HasMode events true (record s { log = set_debug_mode true s.log })
        (HasMode-set_debug_mode true s.log) e
  serve-HasMode (debug_disable ∷ events) mode s h e =
      serve-HasMode events false (record s { log = set_debug_mode false s.log })
        (HasMode-set_debug_mode false s.log) e
  serve-HasMode (reload_cache_sig_hup ∷ events) mode s h e =
      let on = after_reload (serve env events) s e in
      rw on (serve-HasMode events mode (update_cache env s).1 h (rw on at e))
  serve-HasMode (cache_timeout_tick ∷ events) mode s h e =
      let on = after_reload (serve env events) s e in
      rw on (serve-HasMode events mode (update_cache env s).1 h (rw on at e))

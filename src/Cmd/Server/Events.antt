-- ===== src/Cmd/Server/Events.antt =====
-- cmd/hologram-server/main.go: what the running program does at signals and ticks, in the order in
-- which its goroutines take them.
use hologram.Prelude.{if◌then◌else◌, Bool, true, false, Option, List, [], ◌∷◌}
use hologram.Prelude.Go.{ret, Go, pure, panics, ◌>>=◌}
use hologram.Log.{set_debug_mode}
use hologram.Server.Types.{LdapError}
use hologram.Server.UserCache.{update}
use hologram.Cmd.Server.Starting.{Environment, Online, World, cache_config, ldap_server}

-- SIGUSR1, SIGUSR2, SIGHUP, a tick, and SIGINT or SIGTERM.
pub data Event : Type 0 where
  debug_enable debug_disable reload_cache_sig_hup cache_timeout_tick terminate : Event

module _ {Key W L : Type 0} (env : Environment Key W) where
  abbrev pub set_debug : Bool → Go (Online Key W L) (Unit {0})
  set_debug status s = (ret tt, record s { log = set_debug_mode status s.log })

  abbrev pub on_cache : {A : Type 0} → Go (World Key W) A → Go (Online Key W L) A
  on_cache m s = let (o, c) = m s.cache in (o, record s { cache = c })

  abbrev pub update_cache : Go (Online Key W L) (Option LdapError)
  update_cache s =
      on_cache (update env.ssh env.order (cache_config s.config) (ldap_server env s.config)) s

  -- The error of `Update` is dropped.
  abbrev pub reload : Go (Online Key W L) (Unit {0})
  reload = update_cache >>= λ _. pure tt

  -- `server.Close()`, which reads a field of `server`.
  abbrev pub shut_down : Go (Online Key W L) (Unit {0})
  shut_down s = if s.listening then (pure tt) s else panics s

  unfoldable pub settings_change : Event → Go (Online Key W L) (Unit {0})
  settings_change debug_enable = set_debug true
  settings_change debug_disable = set_debug false
  settings_change reload_cache_sig_hup = reload
  settings_change cache_timeout_tick = reload
  settings_change terminate = pure tt

  -- The program after these events: the first signal to terminate ends it.
  unfoldable pub serve : List Event → Go (Online Key W L) (Unit {0})
  serve [] = pure tt
  serve (terminate ∷ events) = shut_down
  serve (event ∷ events) = settings_change event >>= λ _. serve events

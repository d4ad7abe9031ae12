-- ===== src/Cmd/Agent/Events.antt =====
-- cmd/hologram-agent/main.go: what the running agent does at requests and signals, in the order in which
-- its goroutines take them.
use hologram.Prelude.{String, Bool, true, false, Option, List, [], ◌∷◌}
use hologram.Prelude.Go.{Bytes, ret, Go, pure, ◌>>=◌}
use hologram.Log
use hologram.Log.{set_debug_mode}
use hologram.Agent.Client.{Client}
use hologram.Agent.Expiration.{Manager}
use hologram.Agent.Assembly
use hologram.Agent.Assembly.{Web, Arrival, Running}
use hologram.Cmd.Agent.{socket_path}

-- What arrives, SIGUSR1, SIGUSR2, and SIGINT or SIGTERM.
pub data Event : Type 0 where
  arrives : Arrival → Event
  debug_enable debug_disable terminate : Event

-- The program while it runs: the agent, the log, and the files that it has removed.
pub record Program (U L : Type 0) : Type 0 where
  pub running : Running U
  pub log : Log.Package L
  pub removed : List String

module _ {U L : Type 0} (set_sock : String → Option Bytes → Go U (Unit {0}))
    (client : Client (Manager U)) (web : Web U) where
  abbrev pub set_debug : Bool → Go (Program U L) (Unit {0})
  set_debug status s = (ret tt, record s { log = set_debug_mode status s.log })

  abbrev pub on_agent : Go (Running U) (Unit {0}) → Go (Program U L) (Unit {0})
  on_agent f s = let (o, r) = f s.running in (o, record s { running = r })

  -- The deferred function of `main`.
  abbrev pub shut_down : Go (Program U L) (Unit {0})
  shut_down s = (ret tt, record s { removed = socket_path ∷ s.removed })

  unfoldable pub take_event : Event → Go (Program U L) (Unit {0})
  take_event (arrives a) = on_agent (Assembly.handle set_sock client web a)
  take_event debug_enable = set_debug true
  take_event debug_disable = set_debug false
  take_event terminate = pure tt

  -- The program after these events: the first signal to terminate ends it.
  unfoldable pub serve : List Event → Go (Program U L) (Unit {0})
  serve [] = pure tt
  serve (terminate ∷ events) = shut_down
  serve (event ∷ events) = take_event event >>= λ _. serve events

-- ===== src/Log.antt =====
-- log/log.go and log/mux.go: messages of four levels, fanned out to sinks. `fmt.Sprintf` is a
-- parameter.
pub mod Sinks
pub mod Delivery
use hologram.Prelude.{ℕ, String, ◌<>◌, Bool, true, false, List, [], ◌∷◌, ◌++◌, if◌then◌else◌}
use hologram.Prelude.Decimal.{decimal}

-- `Sink`, over the world `W` that it writes to.
pub record Sink (W : Type 0) : Type 0 where
  pub info : String → W → W
  pub warning : String → W → W
  pub error : String → W → W
  pub debug : String → W → W

pub record LogMux (W : Type 0) : Type 0 where
  pub sinks : List (Sink W)
  pub debug_mode : Bool

-- log.go's variables.
pub record Package (W : Type 0) : Type 0 where
  pub internal_log : LogMux W
  pub debug_mode : Bool

module _ {W : Type 0} where
  abbrev pub new_mux : LogMux W
  new_mux = record { sinks = []; debug_mode = false }

  unfoldable pub add : Sink W → LogMux W → LogMux W
  add sink m = record m { sinks = m.sinks ++ sink ∷ [] }

  -- for _, sink := range m.sinks
  unfoldable pub fan_out : (Sink W → W → W) → List (Sink W) → W → W
  fan_out write [] w = w
  fan_out write (sink ∷ sinks) w = fan_out write sinks (write sink w)

  -- `init`, by the two sinks that it makes.
  unfoldable pub init : Sink W → Sink W → Package W
  init syslog terminal = record {
    internal_log = add terminal (add syslog new_mux);
    debug_mode = false;
  }

  unfoldable pub set_debug_mode : Bool → Package W → Package W
  set_debug_mode status p = record {
    internal_log = record p.internal_log { debug_mode = status };
    debug_mode = status;
  }

-- In debug mode a message names the file and the line of its caller.
unfoldable pub file_message : Bool → String × ℕ → String → String
file_message true (f, l) message = "(" <> f <> ":" <> decimal l <> ") " <> message
file_message false caller message = message

module _ {W Arg : Type 0} (sprintf : String → List Arg → String) where
  unfoldable pub mux_info : LogMux W → String → List Arg → W → W
  mux_info m message v = fan_out (λ sink. sink.info (sprintf message v)) m.sinks

  unfoldable pub mux_warning : LogMux W → String → List Arg → W → W
  mux_warning m message v = fan_out (λ sink. sink.warning (sprintf message v)) m.sinks

  unfoldable pub mux_error : LogMux W → String → List Arg → W → W
  mux_error m message v = fan_out (λ sink. sink.error (sprintf message v)) m.sinks

  unfoldable pub mux_debug : LogMux W → String → List Arg → W → W
  mux_debug m message v w =
      if m.debug_mode then fan_out (λ sink. sink.debug (sprintf message v)) m.sinks w else w

  -- `Info`, `Warning`, `Errorf` and `Debug`
  unfoldable pub info : Package W → String × ℕ → String → List Arg → W → W
  info p caller message v = mux_info p.internal_log (file_message p.debug_mode caller message) v

  unfoldable pub warning : Package W → String × ℕ → String → List Arg → W → W
  warning p caller message v =
      mux_warning p.internal_log (file_message p.debug_mode caller message) v

  unfoldable pub errorf : Package W → String × ℕ → String → List Arg → W → W
  errorf p caller message v = mux_error p.internal_log (file_message p.debug_mode caller message) v

  unfoldable pub debug : Package W → String × ℕ → String → List Arg → W → W
  debug p caller message v = mux_debug p.internal_log (file_message p.debug_mode caller message) v

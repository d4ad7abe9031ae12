-- ===== src/Log/Delivery.antt =====
-- What reaches the sinks of log/log.go from a sequence of calls.
use mathlib.Core.List.{append_assoc, append-nil}
use hologram.Prelude.{
  ℕ, String, ◌≡◌, refl, ◌∙◌, Bool, true, false, List, [], ◌∷◌, ◌++◌, if◌then◌else◌,
}
use hologram.Log
use hologram.Log.{
  Sink, LogMux, Package, new_mux, add, fan_out, init, set_debug_mode, file_message, mux_info,
  mux_warning, mux_error, mux_debug,
}

pub data Level : Type 0 where
  at_info at_warning at_error at_debug : Level

-- A message as a sink is given it.
abbrev pub Entry : Type 0
Entry = Level × String

-- A sink that keeps what it is given, by `put`.
abbrev pub recorder : {W : Type 0} → (Entry → W → W) → Sink W
recorder put = record {
  info = λ t. put (at_info, t);
  warning = λ t. put (at_warning, t);
  error = λ t. put (at_error, t);
  debug = λ t. put (at_debug, t);
}

-- What the syslog and the terminal have been given.
abbrev pub Transcripts : Type 0
Transcripts = List Entry × List Entry

abbrev pub syslog : Sink Transcripts
syslog = recorder (λ e t. (t.0 ++ e ∷ [], t.1))

abbrev pub terminal : Sink Transcripts
terminal = recorder (λ e t. (t.0, t.1 ++ e ∷ []))

-- The calls of the package: a message with its caller and its arguments, or a change of the mode.
pub data LogCall (Arg : Type 0) : Type 0 where
  says : Level → String × ℕ → String → List Arg → LogCall Arg
  mode : Bool → LogCall Arg

module _ {Arg : Type 0} (sprintf : String → List Arg → String) where
  abbrev pub say :
      Level → Package Transcripts → String × ℕ → String → List Arg → Transcripts → Transcripts
  say at_info = Log.info sprintf
  say at_warning = Log.warning sprintf
  say at_error = Log.errorf sprintf
  say at_debug = Log.debug sprintf

  unfoldable pub run_calls : List (LogCall Arg) → Package Transcripts → Transcripts → Transcripts
  run_calls [] p t = t
  run_calls (says level caller message v ∷ rest) p t =
      run_calls rest p (say level p caller message v t)
  run_calls (mode status ∷ rest) p t = run_calls rest (set_debug_mode status p) t

  abbrev pub shown : Bool → Level → String → List Entry
  shown status at_debug text = if status then (at_debug, text) ∷ [] else []
  shown status at_info text = (at_info, text) ∷ []
  shown status at_warning text = (at_warning, text) ∷ []
  shown status at_error text = (at_error, text) ∷ []

  -- The log of the calls: each message but those for debugging while the mode is off.
  abbrev pub log_of : Bool → List (LogCall Arg) → List Entry
  log_of status [] = []
  log_of status (says level caller message v ∷ rest) =
      shown status level (sprintf (file_message status caller message) v) ++ log_of status rest
  log_of status (mode status' ∷ rest) = log_of status' rest

  abbrev with_mode : Bool → Package Transcripts
  with_mode status = record {
    internal_log = record { sinks = syslog ∷ terminal ∷ []; debug_mode = status };
    debug_mode = status;
  }

  abbrev extended : Transcripts → List Entry → Transcripts
  extended t es = (t.0 ++ es, t.1 ++ es)

  say-shown :
      (level : Level) (status : Bool) (caller : String × ℕ) (message : String) (v : List Arg)
      (t : Transcripts)
      → say level (with_mode status) caller message v t
        ≡ extended t (shown status level (sprintf (file_message status caller message) v))
  unfolding Log.info Log.warning Log.errorf Log.debug mux_info mux_warning mux_error mux_debug
      fan_out
  say-shown at_info status caller message v t = refl
  say-shown at_warning status caller message v t = refl
  say-shown at_error status caller message v t = refl
  say-shown at_debug true caller message v t = refl
  say-shown at_debug false caller message v t = rw (append-nil t.0, append-nil t.1) refl

  run_calls-extended :
      (calls : List (LogCall Arg)) (status : Bool) (t : Transcripts)
      → run_calls calls (with_mode status) t ≡ extended t (log_of status calls)
  unfolding run_calls set_debug_mode
  run_calls-extended [] status t = rw (append-nil t.0, append-nil t.1) refl
  run_calls-extended (mode status' ∷ rest) status t = run_calls-extended rest status' t
  run_calls-extended (says level caller message v ∷ rest) status t =
      let es = shown status level (sprintf (file_message status caller message) v) in
      rw (say-shown level status caller message v t) (
        run_calls-extended rest status (extended t es)
        ∙ rw (append_assoc t.0 es (log_of status rest), append_assoc t.1 es (log_of status rest))
            refl)

  -- Each sink of the package, as `init` sets it up, is given just the log of the calls, in their order,
  -- whatever the calls are: every message of the three upper levels, those for debugging only while the
  -- mode is on, and nothing else.
  pub run_calls-init :
      (calls : List (LogCall Arg))
      → run_calls calls (init syslog terminal) ([], []) ≡ (log_of false calls, log_of false calls)
  unfolding init add
  run_calls-init calls = run_calls-extended calls false ([], [])

-- ===== src/Log/Sinks.antt =====
-- log/terminal.go and log/syslog.go: the two sinks of the program. The clock, the terminal, the colours
-- of rgbterm and package syslog's writer are parameters.
use hologram.Prelude.{ℕ, String, ◌<>◌}
use hologram.Log.{Sink}

-- Package fmt's `%s %s`, behind the level.
unfoldable pub leveled_message : String → String → String → String
leveled_message level time message = level <> time <> " " <> message

module _ {W : Type 0} (now : W → String) (println : String → W → W)
    (fg_string : String → ℕ → ℕ → ℕ → String) where
  unfoldable pub terminal_info : String → W → W
  terminal_info message w = println (leveled_message "[INFO   ] " (now w) message) w

  unfoldable pub terminal_debug : String → W → W
  terminal_debug message w =
      println (fg_string (leveled_message "[DEBUG  ] " (now w) message) 42 161 152) w

  unfoldable pub terminal_warning : String → W → W
  terminal_warning message w =
      println (fg_string (leveled_message "[WARNING] " (now w) message) 181 137 0) w

  unfoldable pub terminal_error : String → W → W
  terminal_error message w =
      println (fg_string (leveled_message "[ERROR  ] " (now w) message) 220 50 47) w

  -- `NewColourisedTerminalSink`
  abbrev pub terminal_sink : Sink W
  terminal_sink = record {
    info = terminal_info;
    warning = terminal_warning;
    error = terminal_error;
    debug = terminal_debug;
  }

-- `syslog.Writer`, by what a call of it does. Its error is dropped.
pub record Writer (W : Type 0) : Type 0 where
  pub info : String → W → W
  pub debug : String → W → W
  pub warning : String → W → W
  pub err : String → W → W

-- `NewSyslogSink`, where its `Dial` gives a writer.
abbrev pub syslog_sink : {W : Type 0} → Writer W → Sink W
syslog_sink writer = record {
  info = writer.info;
  warning = writer.warning;
  error = writer.err;
  debug = writer.debug;
}

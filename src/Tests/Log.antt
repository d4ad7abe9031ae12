-- ===== src/Tests/Log.antt =====
-- The theorem on the log at a concrete input.
use hologram.Prelude.{ℕ, String, ◌≡◌, true, false, List, [], ◌∷◌}
use hologram.Log.{init, file_message}
use hologram.Prelude.Decimal.{decimal}
use hologram.Log.Delivery.{
  LogCall, says, mode, at_info, at_debug, syslog, terminal, run_calls, run_calls-init,
}

abbrev plain : String → List ℕ → String
plain text args = text

-- A debugging message before, while and after the mode is on.
abbrev said : List (LogCall ℕ)
said =
    says at_debug ("main.go", 44) "first" []
    ∷ mode true
    ∷ says at_debug ("main.go", 48) "second" []
    ∷ mode false
    ∷ says at_debug ("main.go", 50) "third" []
    ∷ says at_info ("main.go", 51) "online" []
    ∷ []

run_calls-init_example : run_calls plain said (init syslog terminal) ([], []) ≡ (
  (at_debug, "(main.go:48) second") ∷ (at_info, "online") ∷ [],
  (at_debug, "(main.go:48) second") ∷ (at_info, "online") ∷ [],
)
unfolding file_message decimal
run_calls-init_example = run_calls-init plain said

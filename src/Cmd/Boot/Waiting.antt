-- ===== src/Cmd/Boot/Waiting.antt =====
-- The loop of cmd/hologram-boot/main.go ends as soon as the server can be reached.
use hologram.Prelude.{ℕ, zero, suc, ◌<◌, ◌≡◌, refl, String, Option, none, some, arith}
use hologram.Prelude.Go.{Error, Bytes, ok, ret, ◌>>=◌}
use hologram.Cmd.Boot.{Environment, config_file, wait_for, main}

-- The exit code by the result of the command.
abbrev pub code_of : Option Error → ℕ
code_of none = 0
code_of (some e) = 1

module _ {W : Type 0} (env : Environment W) (host : String) where
  -- So many attempts to reach the server fail, one after the other.
  abbrev pub Fails : ℕ → W → W → Type 0
  Fails zero w w' = w ≡ w'
  Fails (suc n) w w' = (e : Error) × (v : W) × (env.dial host w ≡ (ret (some e), v)) × Fails n v w'

  wait_for_reached :
      (n rounds : ℕ) (w : W) (r : Option Error) {v v' v'' : W}
      → n < rounds
      → Fails n w v
      → env.dial host v ≡ (ret none, v')
      → env.run_me v' ≡ (ret r, v'')
      → wait_for env rounds host w ≡ (ret (code_of r), v'')
  unfolding wait_for ◌>>=◌
  wait_for_reached n zero w r lt h d m = absurd (omega arith)
  wait_for_reached zero (suc k) w none lt h d m = rw h (rw d (rw m refl))
  wait_for_reached zero (suc k) w (some e) lt h d m = rw h (rw d (rw m refl))
  wait_for_reached (suc n) (suc k) w r lt (e, v, d', h) d m =
      rw d' (wait_for_reached n k v r (omega arith) h d m)

  -- However often the server cannot be reached, once it can be, the program runs the command, once,
  -- and ends with code 0 or 1 as the command succeeds or fails. One round more than there were
  -- failures is enough.
  pub main-runs :
      (contents : Bytes) (n rounds : ℕ) (w : W) (r : Option Error) {v v' v'' : W}
      → n < rounds
      → env.read_file config_file ≡ ok contents
      → env.host_of contents ≡ ok host
      → Fails n w v
      → env.dial host v ≡ (ret none, v')
      → env.run_me v' ≡ (ret r, v'')
      → main env rounds w ≡ (ret (code_of r), v'')
  unfolding main
  main-runs contents n rounds w r lt a b h d m =
      rw a (rw b (wait_for_reached n rounds w r lt h d m))

-- ===== src/Cmd/Boot.antt =====
-- cmd/hologram-boot/main.go: waits for the server, and then runs `hologram me`.
pub mod Waiting
use hologram.Prelude.{ℕ, zero, suc, String, Option, none, some}
use hologram.Prelude.Go.{Error, Bytes, Result, ok, err, out_of_fuel, Go, pure, ◌>>=◌}

-- What the program calls: the files, encoding/json, `net.Dial`, by its error, and the command.
pub record Environment (W : Type 0) : Type 0 where
  pub read_file : String → Result Bytes
  pub host_of : Bytes → Result String
  pub dial : String → Go W (Option Error)
  pub run_me : Go W (Option Error)

abbrev pub config_file : String
config_file = "/etc/hologram/agent.json"

module _ {W : Type 0} (env : Environment W) where
  -- `log.Fatal` exits with 1.
  abbrev pub after_run : Option Error → Go W ℕ
  after_run none = pure 0
  after_run (some e) = pure 1

  abbrev pub after_dial : Go W ℕ → Option Error → Go W ℕ
  after_dial again (some e) = again
  after_dial again none = env.run_me >>= after_run

  -- The loop, for at most so many rounds; the sleep in front of each is left out.
  unfoldable pub wait_for : ℕ → String → Go W ℕ
  wait_for zero host s = (out_of_fuel, s)
  wait_for (suc rounds) host s = (env.dial host >>= after_dial (wait_for rounds host)) s

  abbrev pub with_host : ℕ → Result String → Go W ℕ
  with_host rounds (err e) = pure 1
  with_host rounds (ok host) = wait_for rounds host

  abbrev pub with_file : ℕ → Result Bytes → Go W ℕ
  with_file rounds (err e) = pure 1
  with_file rounds (ok contents) = with_host rounds (env.host_of contents)

  -- The exit code.
  unfoldable pub main : ℕ → Go W ℕ
  main rounds = with_file rounds (env.read_file config_file)

-- ===== src/Cmd/Exit.antt =====
-- How the start of a program under cmd/ ends.
use hologram.Prelude.{ℕ}

-- With the program online, or with an exit code.
pub data Started (A : Type 0) : Type 0 where
  exited : ℕ → Started A
  online : A → Started A

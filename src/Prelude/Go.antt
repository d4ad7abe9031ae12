-- ===== src/Prelude/Go.antt =====
-- What every Go function of the program shares: errors, a function that may fail, and code that
-- runs over a state and may panic.
use Prim.Native.Nat.{ℕ}
use Prim.Native.String.{String}
use mathlib.Core.List.{List}

-- An error is known by its text, `err.Error()`.
abbrev pub Error : Type 0
Error = String

abbrev pub Bytes : Type 0
Bytes = List ℕ

-- The result of a function that returns `(value, err)` with one of the two nil.
pub data Result {ℓ} (A : Type ℓ) : Type ℓ where
  ok : A → Result A
  err : Error → Result A

-- How a body ends. `out_of_fuel` stands for a loop that the model has stopped.
pub data Outcome {ℓ} (A : Type ℓ) : Type ℓ where
  ret : A → Outcome A
  panic : Outcome A
  out_of_fuel : Outcome A

abbrev pub Go {ℓ} : Type 0 → Type ℓ → Type ℓ
Go S A = S → Outcome A × S

module _ {ℓ} {S : Type 0} {A : Type ℓ} where
  abbrev pub pure : A → Go S A
  pure a s = (ret a, s)

  abbrev pub panics : Go S A
  panics s = (panic, s)

  -- A call that neither panics nor loops.
  abbrev pub lift : (S → A × S) → Go S A
  lift f s = let (a, s') = f s in (ret a, s')

module _ {ℓ κ} {S : Type 0} {A : Type ℓ} {B : Type κ} where
  abbrev pub continue : Outcome A → (A → Go S B) → Go S B
  continue (ret a) f s = f a s
  continue panic f s = (panic, s)
  continue out_of_fuel f s = (out_of_fuel, s)

  infixl 5 ◌>>=◌ ◌>>◌
  unfoldable pub ◌>>=◌ : Go S A → (A → Go S B) → Go S B
  ◌>>=◌ m f s = let (o, s') = m s in continue o f s'

  abbrev pub ◌>>◌ : Go S A → Go S B → Go S B
  m >> k = m >>= λ _. k

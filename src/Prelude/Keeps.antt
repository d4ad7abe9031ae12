-- ===== src/Prelude/Keeps.antt =====
-- Invariants of code over a state, with what it says of the value that it returns: one rule for each
-- way to build such code.
use mathlib.Core.Bool.{Bool, true, false}
use hologram.Prelude.Tests.{if◌then◌else◌}
use hologram.Prelude.Go.{Outcome, ret, panic, out_of_fuel, Go, pure, panics, continue, ◌>>=◌}

-- If the outcome is a value, `Q` holds of it.
abbrev pub Ensures {ℓ} : {A : Type 0} → (A → Type ℓ) → Outcome A → Type ℓ
Ensures Q (ret a) = Q a
Ensures Q panic = Unit
Ensures Q out_of_fuel = Unit

-- From a state with `P` the code ends, in whatever way, in a state with `P`, and what it returns
-- has `Q`.
pub record Keeps {ℓ κ} {S A : Type 0} (P : S → Type ℓ) (Q : A → Type κ) (m : Go S A)
    : Type (ℓ ⊔ κ) where
  pub at : (s : S) → P s → P (m s).1 × Ensures Q (m s).0

-- Nothing is said of the value.
abbrev pub Any : {A : Type 0} → A → Type 0
Any a = Unit

pub Ensures-Any : {A : Type 0} (o : Outcome A) → Ensures Any o
Ensures-Any (ret a) = tt
Ensures-Any panic = tt
Ensures-Any out_of_fuel = tt

module _ {ℓ κ} {S A : Type 0} {P : S → Type ℓ} {Q : A → Type κ} where
  pub Keeps-pure : (a : A) → Q a → Keeps P Q (pure a)
  Keeps-pure a q = record { at = λ s h. (h, q) }

  pub Keeps-panics : Keeps P Q panics
  Keeps-panics = record { at = λ s h. (h, tt) }

  pub Keeps-if :
      (b : Bool) {m n : Go S A} → Keeps P Q m → Keeps P Q n → Keeps P Q (if b then m else n)
  Keeps-if true km kn = km
  Keeps-if false km kn = kn

  pub Keeps-fuel : Keeps P Q (λ s. (out_of_fuel, s))
  Keeps-fuel = record { at = λ s h. (h, tt) }

module _ {ℓ κ μ} {S A B : Type 0} {P : S → Type ℓ} {Q : A → Type κ} {R : B → Type μ} where
  Keeps-continue :
      (o : Outcome A) (f : A → Go S B) (s : S)
      → P s
      → Ensures Q o
      → ((a : A) → Q a → Keeps P R (f a))
      → P (continue o f s).1 × Ensures R (continue o f s).0
  Keeps-continue (ret a) f s h q k = (k a q).at s h
  Keeps-continue panic f s h q k = (h, tt)
  Keeps-continue out_of_fuel f s h q k = (h, tt)

  pub Keeps-bind :
      {m : Go S A} {f : A → Go S B}
      → Keeps P Q m
      → ((a : A) → Q a → Keeps P R (f a))
      → Keeps P R (m >>= f)
  unfolding ◌>>=◌
  Keeps-bind {m} {f} km kf = record {
    at = λ s h. let r = km.at s h in Keeps-continue (m s).0 f (m s).1 r.0 r.1 kf;
  }

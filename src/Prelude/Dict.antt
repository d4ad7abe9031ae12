-- ===== src/Prelude/Dict.antt =====
-- Go's maps with text keys, as association lists.
use mathlib.Core.Path.{◌≡◌, refl, sym, ◌∙◌}
use mathlib.Core.Logic.{inl, inr}
use mathlib.Core.List.{List, [], ◌∷◌}
use mathlib.Core.Option.{Option, none, some}
use native.Mathlib.Omega.{arith}
use Prim.Native.String.{String}
use text.Mathlib.Text.{◌==◌}
use text.Mathlib.TextEquality.{eq_iff}
use hologram.Prelude.Lists.{All}
use hologram.Prelude.Tests.{Bool-cases, if◌then◌else◌}

abbrev pub Dict : Type 0 → Type 0
Dict V = List (String × V)

module _ {V : Type 0} where
  unfoldable pub lookup : String → Dict V → Option V
  lookup k [] = none
  lookup k ((j, v) ∷ d) = if j == k then some v else lookup k d

  -- m[k] = v
  unfoldable pub insert : String → V → Dict V → Dict V
  insert k v [] = (k, v) ∷ []
  insert k v ((j, w) ∷ d) = if j == k then (k, v) ∷ d else (j, w) ∷ insert k v d

  pub lookup-insert :
      (k j : String) (v : V) (d : Dict V)
      → lookup j (insert k v d) ≡ (if k == j then some v else lookup j d)
  unfolding lookup insert
  lookup-insert k j v [] = refl
  lookup-insert k j v ((i, w) ∷ d) =
      ground (arith, eq_iff k j, eq_iff i k, eq_iff i j, lookup-insert k j v d)

  -- If only this key has this value, it is found under no other.
  pub lookup_only :
      (d : Dict V) (j k : String) (v : V)
      → All (λ p. p.1 ≡ v → p.0 ≡ j) d
      → lookup k d ≡ some v
      → j ≡ k
  unfolding lookup
  lookup_only [] j k v only h = cc h
  lookup_only ((i, w) ∷ d) j k v only h = elim (Bool-cases (i == k)) [
    | inl e ↦ let same : w ≡ v = cc (rw e at h) in sym (only.0 same) ∙ (eq_iff i k).0 e
    | inr e ↦ lookup_only d j k v only.1 (rw e at h)
  ]

  -- What holds of all entries holds after a new one that has it.
  pub insert-All :
      (P : String × V → Type 0) (k : String) (v : V) (d : Dict V)
      → P (k, v)
      → All P d
      → All P (insert k v d)
  unfolding insert
  insert-All P k v [] p h = (p, tt)
  insert-All P k v ((j, w) ∷ d) p h = elim (Bool-cases (j == k)) [
    | inl e ↦ rw e (p, h.1)
    | inr e ↦ rw e (h.0, insert-All P k v d p h.1)
  ]

-- ===== src/Transport/Listening.antt =====
-- What the loop of a server of transport/ does, before and after `Close`.
use mathlib.Core.List.{append_assoc, append-nil}
use hologram.Prelude.{sym, ℕ, zero, suc, ◌≡◌, refl, ◌∙◌, ap, false, List, [], ◌∷◌, ◌++◌, take}
use hologram.Prelude.Go.{Result, ok, err, out_of_fuel}
use hologram.Transport.{accept, Server, listen_once, listen, close}

pair_of : {A B : Type 0} {p : A × B} {a : A} {b : B} → p.0 ≡ a → p.1 ≡ b → p ≡ (a, b)
pair_of h k = cc (h, k)

module _ {C : Type 0} where
  -- The connections among the results.
  abbrev pub accepted : List (Result C) → List C
  accepted [] = []
  accepted (err e ∷ rest) = accepted rest
  accepted (ok c ∷ rest) = c ∷ accepted rest

  take_nil : (n : ℕ) → take {A = Result C} n [] ≡ []
  take_nil zero = refl
  take_nil (suc n) = refl

  -- The loop never returns.
  listen-out_of_fuel : (rounds : ℕ) (us : Server C) → (listen rounds us).0 ≡ out_of_fuel
  unfolding listen
  listen-out_of_fuel zero us = refl
  listen-out_of_fuel (suc rounds) us = listen-out_of_fuel rounds (listen_once us)

  listen_open :
      (rounds : ℕ) (accepts : List (Result C)) (handed : List C)
      → (listen rounds
          (record { s = record { accepts = accepts; closed = false }; handed = handed })).1.handed
        ≡ handed ++ accepted (take rounds accepts)
  unfolding listen listen_once accept
  listen_open zero accepts handed = sym (append-nil handed)
  listen_open (suc rounds) [] handed =
      listen_open rounds [] handed ∙ ap (λ r. handed ++ accepted r) (take_nil rounds)
  listen_open (suc rounds) (err e ∷ rest) handed = listen_open rounds rest handed
  listen_open (suc rounds) (ok c ∷ rest) handed =
      listen_open rounds rest (handed ++ c ∷ []) ∙ append_assoc handed (c ∷ []) _

  listen_closed : (rounds : ℕ) (us : Server C) → (listen rounds (close us)).1 ≡ close us
  unfolding listen listen_once accept close
  listen_closed zero us = refl
  listen_closed (suc rounds) us = listen_closed rounds us

  -- In any number of rounds the loop hands just the connections that were accepted in so many calls of
  -- `Accept` to the handler, each once and in their order; and after a `Close` it goes on
  -- for ever, with nothing more handed over.
  pub listen-hands :
      (rounds more : ℕ) (accepts : List (Result C))
      → let us =
          (listen rounds
            (record { s = record { accepts = accepts; closed = false }; handed = [] })).1 in
        (us.handed ≡ accepted (take rounds accepts))
        × (listen more (close us) ≡ (out_of_fuel, close us))
  listen-hands rounds more accepts =
      (listen_open rounds accepts [], pair_of (listen-out_of_fuel more _) (listen_closed more _))

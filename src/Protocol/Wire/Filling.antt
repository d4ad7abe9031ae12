-- ===== src/Protocol/Wire/Filling.antt =====
-- The reading loop of protocol/wire.go fills its buffer however the bytes are cut into segments.
use mathlib.Core.List.{append-nil, append_assoc}
use hologram.Prelude.{
  ℕ, zero, suc, ◌+◌, ◌-◌, ◌≤◌, ◌<◌, ◌≡◌, refl, sym, true, false, inl, inr, List, [], ◌∷◌, ◌++◌,
  length, take, drop, leb, Bool-cases, arith, length-append, length-take, take-append_of_le,
  take-append_of_ge, drop-append_of_le, drop-append_of_ge,
}
use hologram.Prelude.Go.{Error, Bytes, Outcome, ret}
use hologram.Protocol.Wire.Stream.{Reader, Filled, full, broke, read_some, fill}

-- The bytes that are still to come.
abbrev pub concat : List Bytes → Bytes
concat [] = []
concat (seg ∷ rest) = seg ++ concat rest

abbrev pub pending : Reader → Bytes
pending r = concat r.segments

-- What a fill of `need` bytes must give on a reader that has them.
pub record Fills (need : ℕ) (got : Bytes) (r : Reader) (x : Outcome Filled × Reader) : Type 0 where
  pub after : Reader
  pub result : x ≡ (ret (full (got ++ take need (pending r))), after)
  pub left : pending after ≡ drop need (pending r)
  pub fewer : length after.segments ≤ length r.segments
  pub same : after.failure ≡ r.failure

leb→le : (a b : ℕ) → leb a b ≡ true → a ≤ b
leb→le a b h = ground arith

leb-false→lt : (a b : ℕ) → leb a b ≡ false → b < a
leb-false→lt a b h = ground arith

module _ (fuel k : ℕ) (got seg : Bytes) (rest : List Bytes) (e : Error) where
  -- One round that takes a whole segment.
  fill_whole :
      leb (length seg) (suc k) ≡ true
      → fill (suc fuel) (suc k) got (record { segments = seg ∷ rest; failure = e })
        ≡ fill fuel (suc k - length seg) (got ++ seg) (record { segments = rest; failure = e })
  unfolding fill
  fill_whole h = rw (h, fill) (rw (h, read_some))

  -- One round that finds all it needs in the first segment.
  fill_part :
      leb (length seg) (suc k) ≡ false
      → fill (suc (suc fuel)) (suc k) got (record { segments = seg ∷ rest; failure = e }) ≡ (
        ret (full (got ++ take (suc k) seg)),
        record { segments = drop (suc k) seg ∷ rest; failure = e },
      )
  unfolding fill
  fill_part h =
      let room : suc k - length (take (suc k) seg) ≡ 0 =
        omega (arith, length-take (suc k) seg, leb-false→lt (length seg) (suc k) h) in
      rw (h, fill) (rw (h, read_some, room))

le→leb : (a b : ℕ) → a ≤ b → leb a b ≡ true
le→leb a b h = ground arith

-- Filling goes on behind a segment that is used up.
Fills-segment :
    (k : ℕ) (got seg : Bytes) (rest : List Bytes) (e : Error) (x : Outcome Filled × Reader)
    → length seg ≤ suc k
    → Fills (suc k - length seg) (got ++ seg) (record { segments = rest; failure = e }) x
    → Fills (suc k) got (record { segments = seg ∷ rest; failure = e }) x
Fills-segment k got seg rest e x h f = record {
  after = f.after;
  result = rw (take-append_of_ge (suc k) seg (concat rest) h, ← append_assoc) f.result;
  left = rw (drop-append_of_ge (suc k) seg (concat rest) h) f.left;
  fewer = let g = f.fewer in omega arith;
  same = f.same;
}

Fills-part :
    (fuel k : ℕ) (got seg : Bytes) (rest : List Bytes) (e : Error)
    → 0 < fuel
    → leb (length seg) (suc k) ≡ false
    → Fills
        (suc k)
        got
        (record { segments = seg ∷ rest; failure = e })
        (fill (suc fuel) (suc k) got (record { segments = seg ∷ rest; failure = e }))
Fills-part zero k got seg rest e pos h = absurd (omega arith)
Fills-part (suc fuel) k got seg rest e pos h =
    let fits : suc k ≤ length seg = omega (arith, leb-false→lt (length seg) (suc k) h) in
    record {
      after = record { segments = drop (suc k) seg ∷ rest; failure = e };
      result =
          rw (take-append_of_le (suc k) seg (concat rest) fits) (fill_part fuel k got seg rest e h);
      left = sym (drop-append_of_le (suc k) seg (concat rest) fits);
      fewer = omega arith;
      same = refl;
    }

-- If the bytes are there and the fuel passes the number of segments, the buffer is filled with the
-- first of them and the rest stays to be read.
pub fill-Fills :
    (fuel need : ℕ) (got : Bytes) (segs : List Bytes) (e : Error)
    → length segs < fuel
    → need ≤ length (concat segs)
    → Fills need got
        (record { segments = segs; failure = e })
        (fill fuel need got (record { segments = segs; failure = e }))
fill-Fills zero need got segs e h n = absurd (omega arith)
fill-Fills (suc fuel) zero got segs e h n = record {
  after = record { segments = segs; failure = e };
  result = unfold fill in rw append-nil;
  left = refl;
  fewer = omega arith;
  same = refl;
}
fill-Fills (suc fuel) (suc k) got [] e h n = absurd (omega arith)
fill-Fills (suc fuel) (suc k) got (seg ∷ rest) e h n =
    elim (Bool-cases (leb (length seg) (suc k))) [
      | inl whole ↦ rw (fill_whole fuel k got seg rest e whole) (
          Fills-segment k got seg rest e _ (leb→le (length seg) (suc k) whole) (
            fill-Fills fuel (suc k - length seg) (got ++ seg) rest e (omega arith)
              (omega (arith, length-append seg (concat rest)))))
      | inr part ↦ Fills-part fuel k got seg rest e (omega arith) part
    ]

-- If the bytes end before the buffer is full, all of them have come and the reader's error is
-- returned.
pub fill_breaks :
    (fuel need : ℕ) (got : Bytes) (segs : List Bytes) (e : Error)
    → length segs < fuel
    → length (concat segs) < need
    → fill fuel need got (record { segments = segs; failure = e })
      ≡ (ret (broke (got ++ concat segs) e), record { segments = []; failure = e })
fill_breaks zero need got segs e h n = absurd (omega arith)
fill_breaks (suc fuel) zero got segs e h n = absurd (omega arith)
fill_breaks (suc fuel) (suc k) got [] e h n = unfold fill in rw append-nil
fill_breaks (suc fuel) (suc k) got (seg ∷ rest) e h n =
    let sum : length (seg ++ concat rest) ≡ length seg + length (concat rest) =
      length-append seg (concat rest) in
    rw
      (fill_whole fuel k got seg rest e (le→leb (length seg) (suc k) (omega arith)), ← append_assoc)
      (fill_breaks fuel (suc k - length seg) (got ++ seg) rest e (omega arith) (omega arith))

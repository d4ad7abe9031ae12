-- ===== src/Protocol/Wire/Writing.antt =====
-- What `Write` of protocol/wire.go leaves on the stream, for every behaviour of the writer below.
use Prim.Native.Nat.{min}
use mathlib.Core.List.{append_assoc, append-nil}
use mathlib.Core.Option.{some-ne-none}
use hologram.Prelude.{
  ℕ, zero, suc, ◌+◌, ◌≤◌, ◌<◌, ◌≡◌, refl, sym, ap, ◌∙◌, inl, inr, Option, none, some, List, [], ◌∷◌,
  ◌++◌, length, take, ltb, ltb→lt, lt→ltb, ltb-false→le, le→ltb-false, Bool-cases, arith, All,
  take_all,
}
use hologram.Prelude.Go.{Error, Bytes, Outcome, ret}
use hologram.Protocol.Wire.{header_of, write_buffer}
use hologram.Protocol.Wire.Framing.{header_size, encode_header, length-encode_header}
use hologram.Protocol.Wire.Stream.{Writer, WriteResult, takes, fails, write_some, write_all}

-- What goes on the wire for a body.
abbrev pub frame : Bytes → Bytes
frame buf = encode_header (header_of buf) ++ buf

-- The contract of `io.Writer`: a call that takes fewer bytes than it is given returns an error.
abbrev pub IsHonest : ℕ → WriteResult → Type 0
IsHonest k (takes n) = k ≤ n
IsHonest k (fails n e) = Unit

-- The outcome is an error, or nil with just `bytes` added to the stream.
pub record Writes (bytes : Bytes) (w : Writer) (x : Outcome (Option Error) × Writer) : Type 0 where
  pub returned : Option Error
  pub result : x.0 ≡ ret returned
  pub all : returned ≡ none → x.1.written ≡ w.written ++ bytes

module _ (fuel total : ℕ) (buf written : Bytes) where
  write_all_done :
      (rs : List WriteResult)
      → length buf ≤ total
      → write_all (suc fuel) total buf (record { written = written; results = rs })
        ≡ (ret none, record { written = written; results = rs })
  write_all_done rs h = unfold write_all in rw (le→ltb-false _ _ h, write_all)

  write_all_takes :
      (n : ℕ) (rs : List WriteResult)
      → total < length buf
      → write_all (suc fuel) total buf (record { written = written; results = takes n ∷ rs })
        ≡ write_all fuel
            (total + min n (length buf))
            buf
            (record { written = written ++ take n buf; results = rs })
  unfolding write_some
  write_all_takes n rs h = unfold write_all in rw (lt→ltb _ _ h, write_all)

  write_all_fails :
      (n : ℕ) (e : Error) (rs : List WriteResult)
      → total < length buf
      → write_all (suc fuel) total buf (record { written = written; results = fails n e ∷ rs })
        ≡ (ret (some e), record { written = written ++ take n buf; results = rs })
  unfolding write_some
  write_all_fails n e rs h = unfold write_all in rw (lt→ltb _ _ h, write_all)

-- With no result left the next round writes the whole buffer and is the last.
write_all_free :
    (fuel total : ℕ) (buf written : Bytes)
    → total < length buf
    → write_all (suc (suc fuel)) total buf (record { written = written; results = [] })
      ≡ (ret none, record { written = written ++ buf; results = [] })
unfolding write_some
write_all_free fuel total buf written h =
    unfold write_all in
    rw (lt→ltb _ _ h, write_all)
      (write_all_done fuel (total + length buf) buf (written ++ buf) [] (omega arith))

-- The loop returns, with nil or with an error.
abbrev pub Returns : Outcome (Option Error) × Writer → Type 0
Returns x = (e : Option Error) × (x.0 ≡ ret e)

unless_done :
    (fuel total : ℕ) (buf written : Bytes) (rs : List WriteResult)
    → (total < length buf
        → Returns (write_all (suc fuel) total buf (record { written = written; results = rs })))
    → Returns (write_all (suc fuel) total buf (record { written = written; results = rs }))
unless_done fuel total buf written rs more = elim (Bool-cases (ltb total (length buf))) [
  | inl lt ↦ more (ltb→lt _ _ lt)
  | inr done ↦ (none, rw (write_all_done fuel total buf written rs (ltb-false→le _ _ done)))
]

-- The loop ends for every writer: a round uses up a result, or writes the whole buffer.
pub write_all-Returns :
    (fuel total : ℕ) (buf written : Bytes) (rs : List WriteResult)
    → length rs + 1 < fuel
    → Returns (write_all fuel total buf (record { written = written; results = rs }))
write_all-Returns zero total buf written rs h = absurd (omega arith)
write_all-Returns (suc zero) total buf written rs h = absurd (omega arith)
write_all-Returns (suc (suc fuel)) total buf written [] h =
    unless_done (suc fuel) total buf written []
      λ lt. (none, rw (write_all_free fuel total buf written lt))
write_all-Returns (suc (suc fuel)) total buf written (takes n ∷ rs) h =
    unless_done (suc fuel) total buf written (takes n ∷ rs) λ lt.
      rw (write_all_takes (suc fuel) total buf written n rs lt) (
        write_all-Returns (suc fuel) (total + min n (length buf)) buf (written ++ take n buf) rs
          (omega arith))
write_all-Returns (suc (suc fuel)) total buf written (fails n e ∷ rs) h =
    unless_done (suc fuel) total buf written (fails n e ∷ rs)
      λ lt. (some e, rw (write_all_fails (suc fuel) total buf written n e rs lt))

-- An honest writer's loop writes the buffer once, or returns its error.
write_all-honest :
    (fuel : ℕ) (buf written : Bytes) (rs : List WriteResult)
    → length rs + 1 < fuel
    → All (IsHonest (length buf)) rs
    → let w : Writer = record { written = written; results = rs } in
      Writes buf w (write_all fuel 0 buf w)
write_all-honest zero buf written rs h honest = absurd (omega arith)
write_all-honest (suc zero) buf written rs h honest = absurd (omega arith)
write_all-honest (suc (suc fuel)) [] written rs h honest =
    rw (write_all_done (suc fuel) 0 [] written rs (omega arith))
      (record { returned = none; result = refl; all = λ _. sym (append-nil written) })
write_all-honest (suc (suc fuel)) (b ∷ bs) written [] h honest =
    rw (write_all_free fuel 0 (b ∷ bs) written (omega arith))
      (record { returned = none; result = refl; all = λ _. refl })
write_all-honest (suc (suc fuel)) (b ∷ bs) written (takes n ∷ rs) h honest =
    rw
      (
        write_all_takes (suc fuel) 0 (b ∷ bs) written n rs (omega arith),
        take_all (b ∷ bs) n honest.0,
        write_all_done fuel (0 + min n (length (b ∷ bs))) (b ∷ bs) (written ++ (b ∷ bs)) rs
            (omega (arith, honest.0)),
      )
      (record { returned = none; result = refl; all = λ _. refl })
write_all-honest (suc (suc fuel)) (b ∷ bs) written (fails n e ∷ rs) h honest =
    rw (write_all_fails (suc fuel) 0 (b ∷ bs) written n e rs (omega arith))
      (record { returned = some e; result = refl; all = λ p. absurd (some-ne-none e p) })

Writes-header :
    (buf written : Bytes) (w : Writer) {x : Outcome (Option Error) × Writer}
    → w.written ≡ written ++ encode_header (header_of buf)
    → Writes buf w x
    → (rs : List WriteResult) → Writes (frame buf) (record { written = written; results = rs }) x
Writes-header buf written w e f rs = record {
  returned = f.returned;
  result = f.result;
  all = λ p.
      f.all p ∙ ap (λ l. l ++ buf) e ∙ append_assoc written (encode_header (header_of buf)) buf;
}

-- Over a writer that keeps the contract of `io.Writer`, `Write` returns nil only if just the header
-- and the body have gone out.
pub write_buffer-honest :
    (buf written : Bytes) (rs : List WriteResult)
    → All (IsHonest header_size) rs
    → All (IsHonest (length buf)) rs
    → let w : Writer = record { written = written; results = rs } in
      Writes (frame buf) w (write_buffer buf w)
unfolding write_buffer write_some
write_buffer-honest buf written [] hh hb =
    Writes-header buf written _ refl
      (write_all-honest 2 buf (written ++ encode_header (header_of buf)) [] (omega arith) tt) []
write_buffer-honest buf written (takes n ∷ rs) hh hb =
    let h = encode_header (header_of buf) in
    let size : length h ≡ header_size = length-encode_header (header_of buf) in
    let same : take n h ≡ h = take_all h n (omega (arith, hh.0)) in
    Writes-header buf written _ (ap (λ l. written ++ l) same)
      (write_all-honest (length rs + 2) buf (written ++ take n h) rs (omega arith) hb.1)
      (takes n ∷ rs)
write_buffer-honest buf written (fails n e ∷ rs) hh hb = record {
  returned = some e;
  result = refl;
  all = λ p. absurd (some-ne-none e p);
}

-- A writer that takes the whole header and then only `k` bytes of the body without an error is
-- offered the body again from its start, so the first `k` bytes are on the stream twice.
pub write_buffer_short :
    (buf written : Bytes) (k : ℕ)
    → k < length buf
    → let w : Writer = record { written = written; results = takes header_size ∷ takes k ∷ [] } in
      write_buffer buf w ≡ (
        ret none,
        record {
          written = written ++ encode_header (header_of buf) ++ take k buf ++ buf;
          results = [];
        },
      )
unfolding write_buffer write_some
write_buffer_short buf written k lt =
    let h = encode_header (header_of buf) in
    let size : length h ≡ header_size = length-encode_header (header_of buf) in
    rw (
      take_all h header_size (omega arith),
      write_all_takes 2 0 buf (written ++ h) k [] (omega arith),
      write_all_free 0 (0 + min k (length buf)) buf (written ++ h ++ take k buf) (omega arith),
    )

-- `Write` always returns: nil or an error, for every writer.
pub write_buffer-Returns :
    (buf written : Bytes) (rs : List WriteResult)
    → Returns (write_buffer buf (record { written = written; results = rs }))
unfolding write_buffer write_some
write_buffer-Returns buf written [] =
    write_all-Returns 2 0 buf (written ++ encode_header (header_of buf)) [] (omega arith)
write_buffer-Returns buf written (takes n ∷ rs) =
    write_all-Returns (length rs + 2) 0 buf (written ++ take n (encode_header (header_of buf))) rs
      (omega arith)
write_buffer-Returns buf written (fails n e ∷ rs) = (some e, refl)

-- Where every write succeeds, the frame is on the stream and nil is returned.
pub write_buffer_free :
    (buf written : Bytes)
    → write_buffer buf (record { written = written; results = [] })
      ≡ (ret none, record { written = written ++ frame buf; results = [] })
unfolding write_buffer write_some
write_buffer_free [] written =
    let h = encode_header (header_of []) in
    rw (append-nil h) (write_all_done 1 0 [] (written ++ h) [] (omega arith))
write_buffer_free (b ∷ bs) written =
    let h = encode_header (header_of (b ∷ bs)) in
    rw (← append_assoc) (write_all_free 0 0 (b ∷ bs) (written ++ h) (omega arith))

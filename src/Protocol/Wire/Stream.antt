-- ===== src/Protocol/Wire/Stream.antt =====
-- The streams below protocol/wire.go: an `io.Reader` as the segments in which the bytes arrive, an
-- `io.Writer` as a script of what its calls return, and the loops of `Read` and `Write` over them.
use Prim.Native.Nat.{min}
use hologram.Prelude.{
  ℕ, zero, suc, ◌+◌, ◌-◌, true, false, Option, none, some, List, [], ◌∷◌, ◌++◌, length, take, drop,
  ltb, leb, if◌then◌else◌,
}
use hologram.Prelude.Go.{Error, Bytes, Result, ok, err, Outcome, ret, out_of_fuel}

-- `failure` is what a read returns when no segment is left: "EOF", or the error of the connection.
pub record Reader : Type 0 where
  pub segments : List Bytes
  pub failure : Error

-- `r.Read(p)` with room for `k` bytes: at most one segment, and what does not fit waits.
abbrev pub read_some : ℕ → Reader → Result Bytes × Reader
read_some k r = elim r.segments [
  | [] ↦ (err r.failure, r)
  | seg ∷ rest ↦
      if leb (length seg) k
      then (ok seg, record r { segments = rest })
      else (ok (take k seg), record r { segments = drop k seg ∷ rest })
]

-- What filling a buffer ends with: the whole buffer, or what had come and the error.
pub data Filled : Type 0 where
  full : Bytes → Filled
  broke : Bytes → Error → Filled

-- for n < len { nRead, err := r.Read(data[n:]); if err != nil { return }; n += nRead }
unfoldable pub fill : ℕ → ℕ → Bytes → Reader → Outcome Filled × Reader
fill zero need got r = (out_of_fuel, r)
fill (suc fuel) zero got r = (ret (full got), r)
fill (suc fuel) (suc k) got r =
    let (x, r') = read_some (suc k) r in
    elim x [
      | ok bs ↦ fill fuel (suc k - length bs) (got ++ bs) r'
      | err e ↦ (ret (broke got e), r')
    ]

-- Each round but the last takes a segment.
abbrev pub fill_fuel : Reader → ℕ
fill_fuel r = length r.segments + 2

-- What a call of `w.Write` returns: it takes at most `n` bytes, with or without an error.
pub data WriteResult : Type 0 where
  takes : ℕ → WriteResult
  fails : ℕ → Error → WriteResult

-- When the script is used up, writes succeed.
pub record Writer : Type 0 where
  pub written : Bytes
  pub results : List WriteResult

unfoldable pub write_some : Bytes → Writer → (ℕ × Option Error) × Writer
write_some buf w = elim w.results [
  | [] ↦ ((length buf, none), record w { written = w.written ++ buf })
  | x ∷ rest ↦ elim x [
    | takes n ↦
        ((min n (length buf), none), record w { written = w.written ++ take n buf; results = rest })
    | fails n e ↦ (
      (min n (length buf), some e),
      record w { written = w.written ++ take n buf; results = rest },
    )
  ]
]

-- for totalWritten < len(buf) { nWritten, err := w.Write(buf); ...; totalWritten += nWritten }
unfoldable pub write_all : ℕ → ℕ → Bytes → Writer → Outcome (Option Error) × Writer
write_all zero total buf w = (out_of_fuel, w)
write_all (suc fuel) total buf w = elim (ltb total (length buf)) [
  | false ↦ (ret none, w)
  | true ↦
      let (x, w') = write_some buf w in
      let (n, e) = x in
      elim e [ some e' ↦ (ret (some e'), w') | none ↦ write_all fuel (total + n) buf w' ]
]

abbrev pub write_fuel : Writer → ℕ
write_fuel w = length w.results + 2

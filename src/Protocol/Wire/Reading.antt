-- ===== src/Protocol/Wire/Reading.antt =====
-- What `Read` of protocol/wire.go returns is a function of the bytes that arrive, however they are
-- cut into segments.
use hologram.Prelude.{
  ◌≤◌, ◌≡◌, refl, inl, inr, [], length, take, drop, ltb, ltb→lt, ltb-false→le, Bool-cases, arith,
  if◌then◌else◌,
}
use hologram.Prelude.Go.{Error, Bytes, Result, ok, err, Outcome, ret}
use hologram.Protocol.Wire.{
  header_error, err_too_large, maximum_message_size, accept_body, after_body, read_body,
  after_header, read_message,
}
use hologram.Protocol.Wire.Framing.{Header, header_size, decode_header}
use hologram.Protocol.Wire.Checksum.{checksum_ieee}
use hologram.Protocol.Wire.Stream.{Reader, Filled, fill_fuel}
use hologram.Protocol.Wire.Filling.{pending, Fills, fill-Fills, fill_breaks}

module _ {A : Type 0} (unmarshal : Bytes → Result A) where
  -- `Read` as a function of the bytes to come and of the error behind them: the result, and the
  -- bytes that are left.
  abbrev pub body_spec : Header → Bytes → Error → Result A × Bytes
  body_spec h bytes e =
      if ltb maximum_message_size h.content_length
      then (err (err_too_large h.content_length), bytes)
      else if ltb (length bytes) h.content_length
      then (err e, [])
      else (accept_body unmarshal h (take h.content_length bytes), drop h.content_length bytes)

  abbrev pub read_spec : Bytes → Error → Result A × Bytes
  read_spec bytes e =
      if ltb (length bytes) header_size
      then (err (header_error bytes e), [])
      else body_spec (decode_header (take header_size bytes)) (drop header_size bytes) e

  -- `x` is what the code did: it returned what `spec` says, and left the bytes that `spec` leaves.
  pub record Meets (spec : Result A × Bytes) (e : Error) (x : Outcome (Result A) × Reader)
      : Type 0 where
    pub after : Reader
    pub result : x ≡ (ret spec.0, after)
    pub left : pending after ≡ spec.1
    pub same : after.failure ≡ e

  Meets-filled :
      (h : Header) (r : Reader) {x : Outcome Filled × Reader}
      → Fills h.content_length [] r x
      → Meets
          (
            accept_body unmarshal h (take h.content_length (pending r)),
            drop h.content_length (pending r),
          )
          r.failure
          (after_body unmarshal h x)
  Meets-filled h r f =
      rw f.result (record { after = f.after; result = refl; left = f.left; same = f.same })

  read_body-Meets :
      (h : Header) (r : Reader)
      → Meets (body_spec h (pending r) r.failure) r.failure (read_body unmarshal h r)
  unfolding read_body
  read_body-Meets h r = elim (Bool-cases (ltb maximum_message_size h.content_length)) [
    | inl large ↦ rw large (record { after = r; result = refl; left = refl; same = refl })
    | inr fits ↦ rw fits (elim (Bool-cases (ltb (length (pending r)) h.content_length)) [
      | inl short ↦ rw short (
          rw
            (fill_breaks (fill_fuel r) h.content_length [] r.segments r.failure (omega arith)
              (ltb→lt _ _ short))
            (record {
              after = record { segments = []; failure = r.failure };
              result = refl;
              left = refl;
              same = refl;
            }))
      | inr there ↦ rw there (
          Meets-filled h r (
            fill-Fills (fill_fuel r) h.content_length [] r.segments r.failure (omega arith)
              (ltb-false→le _ _ there)))
    ])
  ]

  after_header-Meets :
      (r : Reader) {x : Outcome Filled × Reader}
      → Fills header_size [] r x
      → Meets
          (body_spec
            (decode_header (take header_size (pending r)))
            (drop header_size (pending r))
            r.failure)
          r.failure
          (after_header unmarshal x)
  after_header-Meets r f =
      rw (f.result, ← f.left, ← f.same)
        (read_body-Meets (decode_header (take header_size (pending r))) f.after)

  -- `Read` returns, for every way in which the bytes are cut into segments, what the specification
  -- says of the bytes alone, and leaves the bytes that it says.
  pub read_message-Meets :
      (r : Reader) → Meets (read_spec (pending r) r.failure) r.failure (read_message unmarshal r)
  unfolding read_message
  read_message-Meets r = elim (Bool-cases (ltb (length (pending r)) header_size)) [
    | inl short ↦ rw short (
        rw
          (fill_breaks (fill_fuel r) header_size [] r.segments r.failure (omega arith)
            (ltb→lt _ _ short))
          (record {
            after = record { segments = []; failure = r.failure };
            result = refl;
            left = refl;
            same = refl;
          }))
    | inr there ↦ rw there (
        after_header-Meets r (
          fill-Fills (fill_fuel r) header_size [] r.segments r.failure (omega arith)
            (ltb-false→le _ _ there)))
  ]

  -- A message is delivered only if its whole body came, is at most 1 MiB long, passes the checksum
  -- of the header in front of it, and unmarshals to that message.
  pub read_message_sound :
      (r after : Reader) (m : A)
      → read_message unmarshal r ≡ (ret (ok m), after)
      → let h = decode_header (take header_size (pending r)) in
        let rest = drop header_size (pending r) in
        let body = take h.content_length rest in
        (header_size ≤ length (pending r))
        × (h.content_length ≤ length rest)
        × (h.content_length ≤ maximum_message_size)
        × (checksum_ieee body ≡ h.checksum)
        × (unmarshal body ≡ ok m)
        × (pending after ≡ drop h.content_length rest)
  unfolding accept_body
  read_message_sound r after m p =
      ground (arith, p, (read_message-Meets r).result, (read_message-Meets r).left)

-- ===== src/Protocol/Wire/RoundTrip.antt =====
-- What one side writes by protocol/wire.go the other side reads.
use mathlib.Core.List.{append_assoc}
use hologram.Prelude.{
  ◌-◌, ◌^◌, ◌≤◌, ◌<◌, ◌≡◌, refl, ◌∙◌, none, List, [], ◌++◌, ◌%◌, length, take, drop, le→ltb-false,
  lt→ltb, arith, length-append, drop-append_of_ge, take-append_of_le, take_all, ==_iff,
}
use hologram.Prelude.Go.{Error, Bytes, Result, ok, err, ret}
use hologram.Protocol.Message.{Message}
use hologram.Protocol.Wire.{
  header_of, maximum_message_size, err_too_large, accept_body, read_message, write_message,
}
use hologram.Protocol.Wire.Framing.{
  IsWireHeader, header_size, encode_header, length-encode_header, decode_header-encode_header,
}
use hologram.Protocol.Wire.Checksum.{checksum_ieee, checksum_ieee-lt}
use hologram.Protocol.Wire.Stream.{Reader, Writer}
use hologram.Protocol.Wire.Filling.{pending}
use hologram.Protocol.Wire.Reading.{read_spec, body_spec, Meets, read_message-Meets}
use hologram.Protocol.Wire.Writing.{frame, write_buffer_free}

header_of-IsWireHeader : (buf : Bytes) → IsWireHeader (header_of buf)
header_of-IsWireHeader buf = record {
  content_length_fits = omega arith;
  checksum_fits = checksum_ieee-lt buf;
  reserved_fits = omega arith;
}

module _ {ℓ} {A : Type ℓ} (xs ys : List A) where
  take_front : take (length xs) (xs ++ ys) ≡ xs
  take_front =
      take-append_of_le (length xs) xs ys (omega arith) ∙ take_all xs (length xs) (omega arith)

  drop_front : drop (length xs) (xs ++ ys) ≡ ys
  drop_front =
      let e : length xs - length xs ≡ 0 = omega arith in
      drop-append_of_ge (length xs) xs ys (omega arith) ∙ rw e

module _ {A : Type 0} (unmarshal : Bytes → Result A) (buf rest : Bytes) (e : Error) where
  -- A header that announces the body which follows it.
  pub body_spec-frame :
      length buf ≤ maximum_message_size
      → body_spec unmarshal (header_of buf) (buf ++ rest) e ≡ (unmarshal buf, rest)
  unfolding accept_body
  body_spec-frame small =
      let n : length buf % 2 ^ 32 ≡ length buf = omega arith in
      rw (
        n,
        le→ltb-false _ _ small,
        le→ltb-false (length (buf ++ rest)) (length buf) (omega (arith, length-append buf rest)),
        take_front buf rest,
        drop_front buf rest,
        (==_iff _ (checksum_ieee buf)).1 refl,
      )

  body_spec_large :
      maximum_message_size < length buf
      → length buf < 2 ^ 32
      → body_spec unmarshal (header_of buf) (buf ++ rest) e
        ≡ (err (err_too_large (length buf)), buf ++ rest)
  body_spec_large large fits =
      let n : length buf % 2 ^ 32 ≡ length buf = omega arith in rw (n, lt→ltb _ _ large)

  pub read_spec-frame :
      read_spec unmarshal (frame buf ++ rest) e
      ≡ body_spec unmarshal (header_of buf) (buf ++ rest) e
  read_spec-frame =
      let h = encode_header (header_of buf) in
      let size : length h ≡ header_size = length-encode_header (header_of buf) in
      let t : take header_size (h ++ (buf ++ rest)) ≡ h =
        rw (← size) (take_front h (buf ++ rest)) in
      let d : drop header_size (h ++ (buf ++ rest)) ≡ buf ++ rest =
        rw (← size) (drop_front h (buf ++ rest)) in
      rw (
        append_assoc h buf rest,
        le→ltb-false (length (h ++ (buf ++ rest))) header_size
            (omega (arith, length-append h (buf ++ rest))),
        t,
        d,
        decode_header-encode_header (header_of buf) (header_of-IsWireHeader buf),
      )

abbrev pub fresh_writer : Writer
fresh_writer = record { written = []; results = [] }

module _ (marshal : Message → Result Bytes) {A : Type 0} (unmarshal : Bytes → Result A) where
  -- The stream that a peer sees when `m` is written on a connection without faults, with `rest`
  -- behind it.
  abbrev pub stream_of : Message → Bytes → Bytes
  stream_of m rest = (write_message marshal m fresh_writer).1.written ++ rest

  stream_of-frame :
      {m : Message} (buf rest : Bytes) → marshal m ≡ ok buf → stream_of m rest ≡ frame buf ++ rest
  stream_of-frame buf rest h =
      unfold write_message in rw (h, write_message) (rw (write_buffer_free buf []))

  -- A written message of at most 1 MiB is read back, however its bytes are cut into segments, and
  -- the bytes behind it are left on the stream.
  pub read_message-write_message :
      (m : Message) (buf rest : Bytes) (r : Reader)
      → marshal m ≡ ok buf
      → length buf ≤ maximum_message_size
      → pending r ≡ stream_of m rest
      → Meets unmarshal (unmarshal buf, rest) r.failure (read_message unmarshal r)
  read_message-write_message m buf rest r h small p =
      let bytes : pending r ≡ frame buf ++ rest = p ∙ stream_of-frame buf rest h in
      let spec : read_spec unmarshal (pending r) r.failure ≡ (unmarshal buf, rest) = rw bytes (
        read_spec-frame unmarshal buf rest r.failure
        ∙ body_spec-frame unmarshal buf rest r.failure small) in
      rw (← spec) (read_message-Meets unmarshal r)

  -- `Write` does not apply the limit of `Read`: it sends a longer message (of less than 4 GiB)
  -- without an error, and the peer's `Read` refuses it and leaves its body on the stream.
  pub read_message-write_message_large :
      (m : Message) (buf rest : Bytes) (r : Reader)
      → marshal m ≡ ok buf
      → maximum_message_size < length buf
      → length buf < 2 ^ 32
      → pending r ≡ stream_of m rest
      → ((write_message marshal m fresh_writer).0 ≡ ret none)
        × Meets unmarshal
            (err (err_too_large (length buf)), buf ++ rest)
            r.failure
            (read_message unmarshal r)
  read_message-write_message_large m buf rest r h large fits p =
      let bytes : pending r ≡ frame buf ++ rest = p ∙ stream_of-frame buf rest h in
      let spec : read_spec unmarshal (pending r) r.failure
          ≡ (err (err_too_large (length buf)), buf ++ rest) =
        rw bytes (
          read_spec-frame unmarshal buf rest r.failure
          ∙ body_spec_large unmarshal buf rest r.failure large fits) in
      (
        unfold write_message in rw (h, write_message) (rw (write_buffer_free buf [])),
        rw (← spec) (read_message-Meets unmarshal r),
      )

-- ===== src/Tests/Wire.antt =====
-- The theorems on protocol/wire.go at concrete inputs.
use mathlib.Core.List.{append-nil}
use hologram.Prelude.{
  ℕ, zero, suc, ◌≤◌, ◌≡◌, refl, ◌++◌, ap, ◌+◌, none, [], ◌∷◌, length, take, drop, arith,
}
use hologram.Prelude.Go.{Bytes, Result, ok, err, ret}
use hologram.Protocol.Message.{Message}
use hologram.Protocol.Wire.{
  maximum_message_size, err_too_large, read_message, read_body, accept_body, write_message,
  write_buffer,
}
use hologram.Protocol.Wire.Framing.{encode_header, decode_header, header_size}
use hologram.Protocol.Wire.Checksum.{checksum_ieee}
use hologram.Protocol.Wire.Stream.{Reader, takes, fails, write_some, write_all, fill}
use hologram.Protocol.Wire.Filling.{pending}
use hologram.Protocol.Wire.Reading.{Meets, read_spec, read_message-Meets, read_message_sound}
use hologram.Protocol.Wire.Writing.{frame, Writes, write_buffer-honest}
use hologram.Protocol.Wire.RoundTrip.{
  fresh_writer, stream_of, read_message-write_message, read_message-write_message_large,
}
use hologram.Tests.Fixtures.{marshal, unmarshal, ping_message}

-- The frame of the message in two segments, and the start of another behind it.
abbrev two_segments : Reader
two_segments = record {
  segments =
      take 7 (stream_of marshal unmarshal ping_message (2 ∷ []))
      ∷ drop 7 (stream_of marshal unmarshal ping_message (2 ∷ []))
      ∷ [];
  failure = "EOF";
}

two_segments-pending : pending two_segments ≡ stream_of marshal unmarshal ping_message (2 ∷ [])
unfolding write_message write_buffer write_some write_all encode_header
two_segments-pending = refl

read_message-write_message_example :
    Meets unmarshal (unmarshal (10 ∷ 20 ∷ []), 2 ∷ []) "EOF" (read_message unmarshal two_segments)
read_message-write_message_example =
    read_message-write_message marshal unmarshal ping_message (10 ∷ 20 ∷ []) (2 ∷ []) two_segments
      refl (omega arith) two_segments-pending

two_segments_read :
    read_message unmarshal two_segments
    ≡ (ret (ok ping_message), record { segments = (2 ∷ []) ∷ []; failure = "EOF" })
unfolding write_message write_buffer write_some write_all encode_header read_message read_body
    accept_body fill decode_header checksum_ieee
two_segments_read = refl

read_message_sound_example :
    let h = decode_header (take header_size (pending two_segments)) in
    let rest = drop header_size (pending two_segments) in
    let body = take h.content_length rest in
    (header_size ≤ length (pending two_segments))
    × (h.content_length ≤ length rest)
    × (h.content_length ≤ maximum_message_size)
    × (checksum_ieee body ≡ h.checksum)
    × (unmarshal body ≡ ok ping_message)
    × (2 ∷ [] ≡ drop h.content_length rest)
read_message_sound_example =
    read_message_sound unmarshal two_segments (record { segments = (2 ∷ []) ∷ []; failure = "EOF" })
      ping_message two_segments_read

read_message-Meets_example :
    Meets unmarshal
      (read_spec unmarshal (pending two_segments) "EOF")
      "EOF"
      (read_message unmarshal two_segments)
read_message-Meets_example = read_message-Meets unmarshal two_segments

-- A body of one byte more than `Read` takes.
zeros : ℕ → Bytes
zeros zero = []
zeros (suc n) = 0 ∷ zeros n

length-zeros : (n : ℕ) → length (zeros n) ≡ n
unfolding zeros
length-zeros zero = refl
length-zeros (suc n) = ap suc (length-zeros n)

large_body : Bytes
large_body = zeros (maximum_message_size + 1)

large_message : Message → Result Bytes
large_message m = ok large_body

length-large_body : length large_body ≡ maximum_message_size + 1
unfolding large_body
length-large_body = length-zeros (maximum_message_size + 1)

large_reader : Reader
large_reader = record {
  segments = stream_of large_message unmarshal ping_message [] ∷ [];
  failure = "EOF";
}

large_reader-pending : pending large_reader ≡ stream_of large_message unmarshal ping_message []
unfolding large_reader
large_reader-pending = append-nil _

large_message_ok : large_message ping_message ≡ ok large_body
unfolding large_message
large_message_ok = refl

read_message-write_message_large_example :
    ((write_message large_message ping_message fresh_writer).0 ≡ ret none)
    × Meets unmarshal
        (err (err_too_large (length large_body)), large_body ++ [])
        large_reader.failure
        (read_message unmarshal large_reader)
read_message-write_message_large_example =
    read_message-write_message_large large_message unmarshal ping_message large_body [] large_reader
      large_message_ok (omega (arith, length-large_body)) (omega (arith, length-large_body))
      large_reader-pending

write_buffer-honest_example :
    Writes
      (frame (10 ∷ 20 ∷ []))
      (record { written = 5 ∷ []; results = takes 20 ∷ fails 1 "broken pipe" ∷ [] })
      (write_buffer
        (10 ∷ 20 ∷ [])
        (record { written = 5 ∷ []; results = takes 20 ∷ fails 1 "broken pipe" ∷ [] }))
write_buffer-honest_example =
    write_buffer-honest (10 ∷ 20 ∷ []) (5 ∷ []) (takes 20 ∷ fails 1 "broken pipe" ∷ [])
      (omega arith, (tt, tt)) (omega arith, (tt, tt))

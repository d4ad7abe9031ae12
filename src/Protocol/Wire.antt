-- ===== src/Protocol/Wire.antt =====
-- protocol/wire.go: `Read` and `Write`, over the streams of Wire/Stream.antt. The marshalling of
-- messages is golang/protobuf's, a parameter. `Channelize`, two goroutines round these calls, is in
-- Wire/Channels.antt.
pub mod Framing
pub mod Checksum
pub mod Stream
pub mod Filling
use hologram.Prelude.{
  ℕ, zero, suc, ◌+◌, ◌*◌, ◌%◌, ◌^◌, String, ◌<>◌, Option, none, some, List, [], ◌∷◌, length, ltb,
  ◌==◌, str_eq, if◌then◌else◌,
}
use hologram.Prelude.Go.{Error, Bytes, Result, ok, err, Outcome, ret, panic, out_of_fuel}
use hologram.Prelude.Decimal.{decimal}
use hologram.Protocol.Message.{Message}
use Framing.{Header, header_size, encode_header, decode_header}
use Checksum.{checksum_ieee}
use Stream.{Reader, Writer, Filled, full, broke, fill, fill_fuel, write_some, write_all, write_fuel}
pub mod Reading
pub mod Writing
pub mod RoundTrip
pub mod Channels

abbrev pub err_corrupted_message : Error
err_corrupted_message = "Message did not pass checksum."

abbrev pub maximum_message_size : ℕ
maximum_message_size = 1024 * 1024

abbrev pub err_too_large : ℕ → Error
err_too_large n =
    "message too large: requested "
    <> decimal n
    <> " bytes but max is "
    <> decimal maximum_message_size

-- `io.ReadFull`, which `binary.Read` calls: an end of file inside the header is unexpected.
abbrev pub header_error : Bytes → Error → Error
header_error [] e = e
header_error (_ ∷ _) e = if str_eq e "EOF" then "unexpected EOF" else e

-- `unmarshal` makes of a body the value that is read. `Read` returns the message even beside an error of
-- `Unmarshal`: with `A` the pair of both, as in Wire/Channels, nothing of it is left out; with `A` the
-- message alone, such a read gives just the error.
module _ {A : Type 0} (unmarshal : Bytes → Result A) where
  -- The checks on a body that has arrived whole.
  unfoldable pub accept_body : Header → Bytes → Result A
  accept_body h body =
      if checksum_ieee body == h.checksum then unmarshal body else err err_corrupted_message

  abbrev pub after_body : Header → Outcome Filled × Reader → Outcome (Result A) × Reader
  after_body h (ret (full body), r) = (ret (accept_body h body), r)
  after_body h (ret (broke got e), r) = (ret (err e), r)
  after_body h (panic, r) = (panic, r)
  after_body h (out_of_fuel, r) = (out_of_fuel, r)

  unfoldable pub read_body : Header → Reader → Outcome (Result A) × Reader
  read_body h r =
      if ltb maximum_message_size h.content_length
      then (ret (err (err_too_large h.content_length)), r)
      else after_body h (fill (fill_fuel r) h.content_length [] r)

  abbrev pub after_header : Outcome Filled × Reader → Outcome (Result A) × Reader
  after_header (ret (full bytes), r) = read_body (decode_header bytes) r
  after_header (ret (broke got e), r) = (ret (err (header_error got e)), r)
  after_header (panic, r) = (panic, r)
  after_header (out_of_fuel, r) = (out_of_fuel, r)

  unfoldable pub read_message : Reader → Outcome (Result A) × Reader
  read_message r = after_header (fill (fill_fuel r) header_size [] r)

-- The header that `Write` puts in front of a body.
abbrev pub header_of : Bytes → Header
header_of buf = record {
  content_length = length buf % 2 ^ 32;
  checksum = checksum_ieee buf;
  reserved = 0;
}

abbrev pub after_write_header :
    Bytes → (ℕ × Option Error) × Writer → Outcome (Option Error) × Writer
after_write_header buf ((n, some e), w) = (ret (some e), w)
after_write_header buf ((n, none), w) = write_all (write_fuel w) 0 buf w

-- `Write` from the marshalled message on.
unfoldable pub write_buffer : Bytes → Writer → Outcome (Option Error) × Writer
write_buffer buf w = after_write_header buf (write_some (encode_header (header_of buf)) w)

module _ (marshal : Message → Result Bytes) where
  abbrev pub after_marshal : Result Bytes → Writer → Outcome (Option Error) × Writer
  after_marshal (err e) w = (ret (some e), w)
  after_marshal (ok buf) w = write_buffer buf w

  unfoldable pub write_message : Message → Writer → Outcome (Option Error) × Writer
  write_message m w = after_marshal (marshal m) w

-- ===== src/Protocol/Wire/Framing.antt =====
-- protocol/wire.go: the type `header`, and package encoding/binary's little-endian form of it.
use hologram.Prelude.{
  ℕ, zero, suc, ◌+◌, ◌*◌, ◌/◌, ◌%◌, ◌^◌, ◌<◌, ◌≡◌, refl, [], ◌∷◌, ◌++◌, length, take, drop, arith,
}
use native.Mathlib.Nat.{pow-suc}
use hologram.Prelude.Go.{Bytes}

pub record Header : Type 0 where
  pub content_length : ℕ
  pub checksum : ℕ
  pub reserved : ℕ

-- The little-endian form of a number in `w` bytes, and back.
unfoldable pub le_bytes : ℕ → ℕ → Bytes
le_bytes zero n = []
le_bytes (suc w) n = (n % 256) ∷ le_bytes w (n / 256)

unfoldable pub le_value : Bytes → ℕ
le_value [] = 0
le_value (b ∷ bs) = b + 256 * le_value bs

abbrev pub header_size : ℕ
header_size = 16

unfoldable pub encode_header : Header → Bytes
unfolding le_bytes
encode_header h = le_bytes 4 h.content_length ++ (le_bytes 4 h.checksum ++ le_bytes 8 h.reserved)

unfoldable pub decode_header : Bytes → Header
unfolding le_value
decode_header bs = record {
  content_length = le_value (take 4 bs);
  checksum = le_value (take 4 (drop 4 bs));
  reserved = le_value (take 8 (drop 8 bs));
}

pub record IsWireHeader (h : Header) : Type 0 where
  pub content_length_fits : h.content_length < 2 ^ 32
  pub checksum_fits : h.checksum < 2 ^ 32
  pub reserved_fits : h.reserved < 2 ^ 64

pub length-encode_header : (h : Header) → length (encode_header h) ≡ header_size
unfolding encode_header
length-encode_header h = refl

le_value-le_bytes : (w n : ℕ) → n < 256 ^ w → le_value (le_bytes w n) ≡ n
unfolding le_bytes le_value
le_value-le_bytes zero n h = omega arith
le_value-le_bytes (suc w) n h =
    let small : n < 256 ^ w * 256 = rw (← pow-suc 256 w) h in
    omega (arith, le_value-le_bytes w (n / 256) (omega arith))

-- A header whose fields fit their widths survives encoding and decoding.
pub decode_header-encode_header :
    (h : Header) → IsWireHeader h → decode_header (encode_header h) ≡ h
unfolding encode_header decode_header
decode_header-encode_header h fits = ground (
  arith,
  le_value-le_bytes 4 h.content_length,
  le_value-le_bytes 4 h.checksum,
  le_value-le_bytes 8 h.reserved,
)

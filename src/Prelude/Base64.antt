-- ===== src/Prelude/Base64.antt =====
-- Texts as bytes, and package encoding/base64's `StdEncoding.DecodeString` as far as a caller sees it
-- that ignores the error: the bytes that come before the first fault.
pub mod Encode
use Prim.Native.Nat.{ℕ, ◌+◌, ◌-◌, ◌*◌, ◌/◌, ◌%◌}
use Prim.Native.Char.{code}
use Prim.Native.String.{String}
use mathlib.Core.Path.{◌≡◌, refl}
use mathlib.Core.Bool.{◌&&◌, ◌||◌}
use mathlib.Core.Option.{Option, none, some}
use mathlib.Core.List.{[], ◌∷◌, ◌++◌}
use hologram.Prelude.Tests.{ltb, leb, ◌==◌, if◌then◌else◌}
use hologram.Prelude.Go.{Bytes}

-- The UTF-8 form of a code point.
utf8 : ℕ → Bytes
utf8 c =
    if ltb c 0x80
    then c ∷ []
    else if ltb c 0x800
    then (0xC0 + c / 64) ∷ (0x80 + c % 64) ∷ []
    else if ltb c 0x10000
    then (0xE0 + c / 4096) ∷ (0x80 + c / 64 % 64) ∷ (0x80 + c % 64) ∷ []
    else (0xF0 + c / 262144) ∷ (0x80 + c / 4096 % 64) ∷ (0x80 + c / 64 % 64) ∷ (0x80 + c % 64) ∷ []

-- []byte(s)
unfoldable pub text_bytes : String → Bytes
unfolding utf8
text_bytes String.[] = []
text_bytes (String.◌∷◌ c s) = utf8 (code c) ++ text_bytes s

sextet : ℕ → Option ℕ
sextet c =
    if leb b'A' c && leb c b'Z'
    then some (c - 65)
    else if leb b'a' c && leb c b'z'
    then some (c - 71)
    else if leb b'0' c && leb c b'9'
    then some (c + 4)
    else if c == b'+'
    then some 62
    else if c == b'/'
    then some 63
    else none

-- Line ends are skipped wherever they stand.
without_breaks : Bytes → Bytes
without_breaks [] = []
without_breaks (c ∷ cs) =
    let rest = without_breaks cs in if c == 10 || c == 13 then rest else c ∷ rest

-- The bytes of a full group of four, or of one that is padded; a faulty group gives none and ends
-- the decoding.
group_value : ℕ → ℕ → ℕ → ℕ → Bytes
group_value a b c d =
    let n = (a * 64 + b) * 4096 + c * 64 + d in n / 65536 ∷ n / 256 % 256 ∷ n % 256 ∷ []

third : ℕ → ℕ → ℕ → Option ℕ → Bytes → Bytes
unfolding group_value
third a b c (some d) rest = group_value a b c d ++ rest
third a b c none rest = []

decode_group : ℕ → ℕ → ℕ → ℕ → Bytes → Bytes
unfolding sextet third
decode_group a b c d rest = elim (sextet a) [
  | none ↦ []
  | some x ↦ elim (sextet b) [
    | none ↦ []
    | some y ↦ if c == b'=' && d == b'=' then (x * 4 + y / 16) ∷ [] else elim (sextet c) [
      | none ↦ []
      | some z ↦
          if d == b'='
          then (x * 4 + y / 16) ∷ (y % 16 * 16 + z / 4) ∷ []
          else third x y z (sextet d) rest
    ]
  ]
]

decode_groups : Bytes → Bytes
decode_groups (a ∷ b ∷ c ∷ d ∷ cs) = decode_group a b c d (decode_groups cs)
decode_groups _ = []

unfoldable pub base64_decode : String → Bytes
unfolding text_bytes without_breaks decode_groups decode_group
base64_decode s = decode_groups (without_breaks (text_bytes s))

base64_decode_runs : base64_decode "aG9sb2dyYW0=" ≡ text_bytes "hologram"
unfolding base64_decode
base64_decode_runs = refl

base64_decode_stops : base64_decode "aG9s!G9s" ≡ text_bytes "hol"
unfolding base64_decode
base64_decode_stops = refl

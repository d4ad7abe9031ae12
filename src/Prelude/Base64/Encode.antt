-- ===== src/Prelude/Base64/Encode.antt =====
-- Package encoding/base64's `StdEncoding.EncodeToString`, and that decoding undoes it.
use Prim.Native.Nat.{ℕ, zero, suc, ◌+◌, ◌*◌, ◌/◌, ◌%◌, ◌<◌}
use Prim.Native.Char.{Char, code}
use Prim.Native.String.{String, char_at}
use mathlib.Core.Path.{◌≡◌, refl, ap, ◌∙◌}
use mathlib.Core.Bool.{Bool, true, false, ◌&&◌, ◌||◌, not}
use mathlib.Core.Option.{Option, none, some}
use mathlib.Core.List.{[], ◌∷◌, ◌++◌}
use native.Mathlib.Omega.{arith}
use hologram.Prelude.Tests.{ltb, ◌==◌}
use hologram.Prelude.Lists.{All}
use hologram.Prelude.Go.{Bytes}
use hologram.Prelude.Base64.{
  utf8, text_bytes, sextet, without_breaks, group_value, third, decode_group, decode_groups,
  base64_decode,
}

-- The character for six bits.
letter : ℕ → Char
letter = char_at "ABCDEFGHIJKLMNOPQRSTUVWXYZabcdefghijklmnopqrstuvwxyz0123456789+/"

-- A last group of one or two bytes is filled up with "=".
unfoldable pub base64_encode : Bytes → String
unfolding letter
base64_encode [] = ""
base64_encode (x ∷ []) = String.◌∷◌ (letter (x / 4)) (String.◌∷◌ (letter (x % 4 * 16)) "==")
base64_encode (x ∷ y ∷ []) =
    String.◌∷◌ (letter (x / 4))
      (String.◌∷◌ (letter (x % 4 * 16 + y / 16)) (String.◌∷◌ (letter (y % 16 * 4)) "="))
base64_encode (x ∷ y ∷ z ∷ rest) = String.◌∷◌ (letter (x / 4)) (
    String.◌∷◌ (letter (x % 4 * 16 + y / 16)) (
      String.◌∷◌ (letter (y % 16 * 4 + z / 64))
        (String.◌∷◌ (letter (z % 64)) (base64_encode rest))))

base64_encode_runs : base64_encode (text_bytes "hologram!") ≡ "aG9sb2dyYW0h"
unfolding base64_encode letter text_bytes
base64_encode_runs = refl

-- What decoding needs to know of a letter: it is one byte, neither "=" nor a line end, and stands for
-- its six bits.
abbrev is_value : Option ℕ → ℕ → Bool
is_value none i = false
is_value (some j) i = j == i

serves : ℕ → Bool
serves i =
    let c = code (letter i) in
    ltb c 0x80 && (not (c == b'=') && (not (c == 10 || c == 13) && is_value (sextet c) i))

all_below : ℕ → (ℕ → Bool) → Bool
all_below zero p = true
all_below (suc n) p = p n && all_below n p

all_below_sound : (n : ℕ) (p : ℕ → Bool) (i : ℕ) → all_below n p ≡ true → i < n → p i ≡ true
unfolding all_below
all_below_sound zero p i h lt = absurd (omega arith)
all_below_sound (suc n) p i h lt = ground (arith, all_below_sound n p i)

letters_serve : all_below 64 serves ≡ true
unfolding all_below serves letter sextet
letters_serve = refl

record IsLetter (c i : ℕ) : Type 0 where
  one_byte : ltb c 0x80 ≡ true
  no_filler : (c == b'=') ≡ false
  no_break : (c == 10 || c == 13) ≡ false
  value : sextet c ≡ some i

of_tests :
    (c i : ℕ) (o : Option ℕ)
    → sextet c ≡ o
    → (ltb c 0x80 && (not (c == b'=') && (not (c == 10 || c == 13) && is_value o i))) ≡ true
    → IsLetter c i
of_tests c i none eq h = absurd (ground arith)
of_tests c i (some j) eq h = record {
  one_byte = ground arith;
  no_filler = ground arith;
  no_break = ground arith;
  value = eq ∙ ap some (ground arith);
}

letter-IsLetter : (i : ℕ) → i < 64 → IsLetter (code (letter i)) i
unfolding serves
letter-IsLetter i h =
    of_tests (code (letter i)) i (sextet (code (letter i))) refl
      (all_below_sound 64 serves i letters_serve h)

cleaned : String → Bytes
cleaned s = without_breaks (text_bytes s)

letter_cleans :
    (i : ℕ) (s : String) → i < 64 → cleaned (String.◌∷◌ (letter i) s) ≡ code (letter i) ∷ cleaned s
unfolding cleaned text_bytes utf8 without_breaks
letter_cleans i s h = let l = letter-IsLetter i h in rw l.one_byte (rw l.no_break refl)

module _ {a b i j : ℕ} (rest : Bytes) (la : IsLetter a i) (lb : IsLetter b j) where
  one_left : decode_group a b b'=' b'=' rest ≡ (i * 4 + j / 16) ∷ []
  unfolding decode_group
  one_left = rw (decode_group, la.value, lb.value) refl

  module _ {c k : ℕ} (lc : IsLetter c k) where
    two_left : decode_group a b c b'=' rest ≡ (i * 4 + j / 16) ∷ (j % 16 * 16 + k / 4) ∷ []
    unfolding decode_group
    two_left = rw (decode_group, la.value, lb.value, lc.no_filler, lc.value) refl

    full : {d l : ℕ} → IsLetter d l → decode_group a b c d rest ≡ group_value i j k l ++ rest
    unfolding third decode_group
    full ld =
        rw (decode_group, la.value, lb.value, lc.no_filler, lc.value, ld.no_filler, ld.value) refl

bytes_of :
    (n x y z : ℕ)
    → x < 256
    → y < 256
    → z < 256
    → n ≡ x * 65536 + y * 256 + z
    → n / 65536 ∷ n / 256 % 256 ∷ n % 256 ∷ [] ≡ x ∷ y ∷ z ∷ []
bytes_of n x y z hx hy hz e = grind arith

numbers :
    (x y z : ℕ)
    → x < 256
    → y < 256
    → z < 256
    → group_value (x / 4) (x % 4 * 16 + y / 16) (y % 16 * 4 + z / 64) (z % 64) ≡ x ∷ y ∷ z ∷ []
unfolding group_value
numbers x y z hx hy hz = bytes_of _ x y z hx hy hz (omega arith)

of_cleaned : (s : String) → base64_decode s ≡ decode_groups (cleaned s)
unfolding base64_decode cleaned
of_cleaned s = refl

one_filler : cleaned "=" ≡ b'=' ∷ []
unfolding cleaned text_bytes without_breaks
one_filler = refl

two_fillers : cleaned "==" ≡ b'=' ∷ b'=' ∷ []
unfolding cleaned text_bytes without_breaks
two_fillers = refl

module _ {i j : ℕ} (hi : i < 64) (hj : j < 64) where
  decode_one :
      base64_decode (String.◌∷◌ (letter i) (String.◌∷◌ (letter j) "==")) ≡ (i * 4 + j / 16) ∷ []
  unfolding decode_groups
  decode_one =
      rw
        (
          of_cleaned (String.◌∷◌ (letter i) (String.◌∷◌ (letter j) "==")),
          letter_cleans i (String.◌∷◌ (letter j) "==") hi,
          letter_cleans j "==" hj,
          two_fillers,
        )
        (one_left [] (letter-IsLetter i hi) (letter-IsLetter j hj))

  module _ {k : ℕ} (hk : k < 64) where
    decode_two :
        base64_decode (String.◌∷◌ (letter i) (String.◌∷◌ (letter j) (String.◌∷◌ (letter k) "=")))
        ≡ (i * 4 + j / 16) ∷ (j % 16 * 16 + k / 4) ∷ []
    unfolding decode_groups
    decode_two =
        rw
          (
            of_cleaned (String.◌∷◌ (letter i) (String.◌∷◌ (letter j) (String.◌∷◌ (letter k) "="))),
            letter_cleans i (String.◌∷◌ (letter j) (String.◌∷◌ (letter k) "=")) hi,
            letter_cleans j (String.◌∷◌ (letter k) "=") hj,
            letter_cleans k "=" hk,
            one_filler,
          )
          (two_left [] (letter-IsLetter i hi) (letter-IsLetter j hj) (letter-IsLetter k hk))

    decode_full :
        {l : ℕ} (s : String)
        → l < 64
        → base64_decode (
            String.◌∷◌
              (letter i)
              (String.◌∷◌ (letter j) (String.◌∷◌ (letter k) (String.◌∷◌ (letter l) s))))
          ≡ group_value i j k l ++ base64_decode s
    unfolding decode_groups
    decode_full {l = l} s hl =
        rw
          (
            of_cleaned (
                String.◌∷◌ (letter i)
                  (String.◌∷◌ (letter j) (String.◌∷◌ (letter k) (String.◌∷◌ (letter l) s)))),
            letter_cleans i
                (String.◌∷◌ (letter j) (String.◌∷◌ (letter k) (String.◌∷◌ (letter l) s))) hi,
            letter_cleans j (String.◌∷◌ (letter k) (String.◌∷◌ (letter l) s)) hj,
            letter_cleans k (String.◌∷◌ (letter l) s) hk,
            letter_cleans l s hl,
            of_cleaned s,
          )
          (full (decode_groups (cleaned s)) (letter-IsLetter i hi) (letter-IsLetter j hj)
            (letter-IsLetter k hk) (letter-IsLetter l hl))

base64_decode_nothing : base64_decode "" ≡ []
unfolding base64_decode without_breaks text_bytes decode_groups
base64_decode_nothing = refl

one_byte : (x y : ℕ) → x < 256 → y ≡ x % 4 * 16 → (x / 4 * 4 + y / 16) ∷ [] ≡ x ∷ []
one_byte x y hx e = ap (λ b. b ∷ []) (omega arith)

two_bytes :
    (x y : ℕ)
    → x < 256
    → y < 256
    → (x / 4 * 4 + (x % 4 * 16 + y / 16) / 16)
        ∷ ((x % 4 * 16 + y / 16) % 16 * 16 + (y % 16 * 4) / 4)
        ∷ []
      ≡ x ∷ y ∷ []
two_bytes x y hx hy =
    let a : (x / 4 * 4 + (x % 4 * 16 + y / 16) / 16) ≡ x = omega arith in
    let b : ((x % 4 * 16 + y / 16) % 16 * 16 + (y % 16 * 4) / 4) ≡ y = omega arith in cc (a, b)

-- Decoding undoes encoding, for bytes of eight bits.
pub base64_decode-base64_encode :
    (bs : Bytes) → All (λ b. b < 256) bs → base64_decode (base64_encode bs) ≡ bs
unfolding base64_encode
base64_decode-base64_encode [] h = base64_decode_nothing
base64_decode-base64_encode (x ∷ []) h =
    decode_one (omega arith) (omega arith) ∙ one_byte x _ h.0 refl
base64_decode-base64_encode (x ∷ y ∷ []) h =
    decode_two (omega arith) (omega arith) (omega arith) ∙ two_bytes x y h.0 h.1.0
base64_decode-base64_encode (x ∷ y ∷ z ∷ rest) h =
    let ih = base64_decode-base64_encode rest h.1.1.1 in
    decode_full (omega arith) (omega arith) (omega arith) (base64_encode rest) (omega arith)
    ∙ rw (numbers x y z h.0 h.1.0 h.1.1.0, ih) refl

-- ===== src/Prelude/Text.antt =====
-- The functions of Go's package `strings` that the program uses, on native texts.
use mathlib.Core.Path.{◌≡◌, refl}
use mathlib.Core.List.{List, [], ◌∷◌}
use mathlib.Core.Bool.{Bool, true, ◌||◌}
use Prim.Native.Nat.{ℕ}
use Prim.Native.Char.{Char, code}
use Prim.Native.String.{String}
use text.Mathlib.Text.{starts_with, ◌==◌ as str_eq}
use hologram.Prelude.Tests.{◌==◌, if◌then◌else◌}

-- `strings.Contains`: the text starts somewhere.
unfoldable pub contains_text : String → String → Bool
contains_text String.[] t = starts_with String.[] t
contains_text (String.◌∷◌ c s) t = starts_with (String.◌∷◌ c s) t || contains_text s t

-- The first part of a text that is split at a character, in front of the parts of the rest.
abbrev pub cons_part : Char → List String → List String
cons_part c [] = String.◌∷◌ c String.[] ∷ []
cons_part c (part ∷ parts) = String.◌∷◌ c part ∷ parts

-- `strings.Split` at a separator of one character.
unfoldable pub split : ℕ → String → List String
split sep String.[] = String.[] ∷ []
split sep (String.◌∷◌ c s) =
    let parts = split sep s in if code c == sep then String.[] ∷ parts else cons_part c parts

split_runs : split b'/' "a1/role" ≡ "a1" ∷ "role" ∷ []
unfolding split
split_runs = refl

contains_text_runs : contains_text "123:role/x" ":role/" ≡ true
unfolding contains_text
contains_text_runs = refl

-- `strings.HasSuffix`: the text ends with this one.
unfoldable pub has_suffix : String → String → Bool
has_suffix String.[] t = str_eq String.[] t
has_suffix (String.◌∷◌ c s) t = str_eq (String.◌∷◌ c s) t || has_suffix s t

has_suffix_runs : has_suffix "accept: closed" "closed" ≡ true
unfolding has_suffix
has_suffix_runs = refl

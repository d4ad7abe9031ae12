-- ===== src/Server/Credentials/Arn.antt =====
-- The names that `BuildARN` of server/credentials.go gives.
use Prim.Native.Char.{Char, code}
use text.Mathlib.TextLemmas.{append_assoc, cons-append, nil-append}
use text.Mathlib.TextEquality.{starts_with_iff}
use hologram.Prelude.{
  ℕ, ◌≡◌, refl, sym, ap, ◌∙◌, ◌≢◌, inl, inr, String, ◌<>◌, Bool, true, false, Option, none, some,
  List, [], ◌∷◌, ◌==◌, str_eq, str_eq_iff, starts_with, Bool-cases, if◌then◌else◌,
}
use hologram.Prelude.Text.{split, cons_part, contains_text}
use hologram.Server.Credentials.{Aliases, alias, alias_parts, plain_arn, build_from, build_arn}

-- How the name of an IAM role begins.
abbrev pub IsArn : String → Type 0
IsArn s = starts_with s "arn:aws:iam" ≡ true

-- Each account that an alias names is written as the front of an ARN.
abbrev pub AliasesAreArns : Option Aliases → Type 0
AliasesAreArns none = Unit
AliasesAreArns (some aliases) = (key : String) → alias aliases key ≢ "" → IsArn (alias aliases key)

-- No alias is itself spelled like an ARN.
abbrev pub NoArnAliases : Option Aliases → Type 0
NoArnAliases none = Unit
NoArnAliases (some aliases) = (key : String) → IsArn key → alias aliases key ≡ ""

IsArn-append : (s t : String) → IsArn s → IsArn (s <> t)
IsArn-append s t h =
    let p = (starts_with_iff s "arn:aws:iam").0 h in
    (starts_with_iff (s <> t) "arn:aws:iam").1
      (p.0 <> t, sym (append_assoc "arn:aws:iam" p.0 t) ∙ ap (λ v. v <> t) p.1)

abbrev PartsAreArns : Option (String × String) → Type 0
PartsAreArns none = Unit
PartsAreArns (some (account, name)) = IsArn account

alias_parts-PartsAreArns :
    (parts : List String) (aliases : Option Aliases)
    → AliasesAreArns aliases
    → PartsAreArns (alias_parts parts aliases)
alias_parts-PartsAreArns [] none h = tt
alias_parts-PartsAreArns [] (some aliases) h = tt
alias_parts-PartsAreArns (a ∷ []) none h = tt
alias_parts-PartsAreArns (a ∷ []) (some aliases) h = tt
alias_parts-PartsAreArns (a ∷ b ∷ []) none h = tt
alias_parts-PartsAreArns (a ∷ b ∷ []) (some aliases) h =
    elim (Bool-cases (str_eq (alias aliases a) "")) [
      | inl e ↦ rw e tt
      | inr n ↦ rw n (h a (λ p. cc ((str_eq_iff (alias aliases a) "").1 p)))
    ]
alias_parts-PartsAreArns (a ∷ b ∷ c ∷ parts) none h = tt
alias_parts-PartsAreArns (a ∷ b ∷ c ∷ parts) (some aliases) h = tt

if-IsArn :
    (b : Bool) (x y : String)
    → (b ≡ true → IsArn x)
    → (b ≡ false → IsArn y)
    → IsArn (if b then x else y)
if-IsArn true x y hx hy = hx refl
if-IsArn false x y hx hy = hy refl

plain_arn-IsArn : (role account : String) → IsArn (plain_arn role account)
plain_arn-IsArn role account =
    if-IsArn _ role _ (λ h. h)
      λ _.
        if-IsArn (contains_text role ":role/") ("arn:aws:iam::" <> role) _
          (λ _. IsArn-append "arn:aws:iam::" role refl)
          λ _. IsArn-append "arn:aws:iam::" (account <> (":role/" <> role)) refl

build_from-IsArn :
    (o : Option (String × String)) (role account : String)
    → PartsAreArns o
    → IsArn (build_from o role account)
build_from-IsArn none role account h = plain_arn-IsArn role account
build_from-IsArn (some (arn, name)) role account h = IsArn-append arn (":role/" <> name) h

-- If the accounts of all aliases are written as ARNs, then whatever the role is, `BuildARN` gives a
-- name that begins like an ARN.
pub build_arn-IsArn :
    (role account : String) (aliases : Option Aliases)
    → AliasesAreArns aliases
    → IsArn (build_arn role account aliases)
unfolding build_arn
build_arn-IsArn role account aliases h =
    build_from-IsArn (alias_parts (split b'/' role) aliases) role account
      (alias_parts-PartsAreArns (split b'/' role) aliases h)

-- The separator does not occur in the text.
abbrev FreeOf : ℕ → String → Type 0
FreeOf sep String.[] = Unit
FreeOf sep (String.◌∷◌ c s) = ((code c == sep) ≡ false) × FreeOf sep s

-- A split has a first part, and what the separator does not occur in stays in front of it.
abbrev BeginsWith : String → List String → Type 0
BeginsWith p parts = (q : String) × (rest : List String) × (parts ≡ (p <> q) ∷ rest)

if-BeginsWith :
    (b : Bool) (xs ys : List String)
    → BeginsWith "" xs
    → BeginsWith "" ys
    → BeginsWith "" (if b then xs else ys)
if-BeginsWith true xs ys hx hy = hx
if-BeginsWith false xs ys hx hy = hy

cons_part-BeginsWith :
    (p : String) (c : Char) (parts : List String)
    → BeginsWith p parts
    → BeginsWith (String.◌∷◌ c p) (cons_part c parts)
cons_part-BeginsWith p c parts (q, rest, e) =
    (q, rest, rw e (ap (λ x. x ∷ rest) (sym (cons-append c p q))))

split-BeginsWith_nil : (sep : ℕ) (s : String) → BeginsWith "" (split sep s)
unfolding split
split-BeginsWith_nil sep String.[] = ("", [], ap (λ x. x ∷ []) (sym (nil-append "")))
split-BeginsWith_nil sep (String.◌∷◌ c s) =
    let (q, rest, e) = split-BeginsWith_nil sep s in
    if-BeginsWith (code c == sep) (String.[] ∷ split sep s) (cons_part c (split sep s))
      ("", split sep s, ap (λ x. x ∷ split sep s) (sym (nil-append "")))
      (
        String.◌∷◌ c q,
        rest,
        rw e (
            ap (λ x. x ∷ rest)
              (ap (λ v. String.◌∷◌ c v) (nil-append q) ∙ sym (nil-append (String.◌∷◌ c q)))),
      )

split-BeginsWith_cons :
    (sep : ℕ) (c : Char) (p s : String)
    → (code c == sep) ≡ false
    → BeginsWith p (split sep s)
    → BeginsWith (String.◌∷◌ c p) (split sep (String.◌∷◌ c s))
unfolding split
split-BeginsWith_cons sep c p s h b = rw (h, split) (cons_part-BeginsWith p c (split sep s) b)

split-BeginsWith : (sep : ℕ) (p r : String) → FreeOf sep p → BeginsWith p (split sep (p <> r))
split-BeginsWith sep String.[] r h = rw nil-append (split-BeginsWith_nil sep r)
split-BeginsWith sep (String.◌∷◌ c p) r (h, hs) =
    rw cons-append (split-BeginsWith_cons sep c p (p <> r) h (split-BeginsWith sep p r hs))

arn_free : FreeOf b'/' "arn:aws:iam"
arn_free =
    (refl, (refl, (refl, (refl, (refl, (refl, (refl, (refl, (refl, (refl, (refl, tt)))))))))))

if_true : {A : Type 0} (b : Bool) (x y : A) → b ≡ true → (if b then x else y) ≡ x
if_true true x y h = refl
if_true false x y h = cc

-- An ARN is never taken apart by its alias.
alias_parts_of_arn :
    (parts : List String) (aliases : Option Aliases)
    → NoArnAliases aliases
    → BeginsWith "arn:aws:iam" parts
    → alias_parts parts aliases ≡ none
alias_parts_of_arn [] none h b = refl
alias_parts_of_arn [] (some aliases) h b = refl
alias_parts_of_arn (x ∷ []) none h b = refl
alias_parts_of_arn (x ∷ []) (some aliases) h b = refl
alias_parts_of_arn (x ∷ y ∷ []) none h b = refl
alias_parts_of_arn (x ∷ y ∷ []) (some aliases) h (q, rest, e) =
    let front : x ≡ "arn:aws:iam" <> q = cc in
    let arn : IsArn x = rw front (IsArn-append "arn:aws:iam" q refl) in rw (h x arn)
alias_parts_of_arn (x ∷ y ∷ z ∷ parts) none h b = refl
alias_parts_of_arn (x ∷ y ∷ z ∷ parts) (some aliases) h b = refl

-- A name that begins like an ARN is kept.
pub build_arn_of_arn :
    (role account : String) (aliases : Option Aliases)
    → NoArnAliases aliases
    → IsArn role
    → build_arn role account aliases ≡ role
unfolding build_arn
build_arn_of_arn role account aliases h arn =
    let (r, e) = (starts_with_iff role "arn:aws:iam").0 arn in
    let parts : BeginsWith "arn:aws:iam" (split b'/' role) =
      rw (← e) (split-BeginsWith b'/' "arn:aws:iam" r arn_free) in
    rw (alias_parts_of_arn (split b'/' role) aliases h parts)
      (if_true (starts_with role "arn:aws:iam") role _ arn)

-- `BuildARN` of a name that it has built is the same name, if the accounts of the aliases are
-- written as ARNs and no alias is.
pub build_arn_idem :
    (role account : String) (aliases : Option Aliases)
    → AliasesAreArns aliases
    → NoArnAliases aliases
    → build_arn (build_arn role account aliases) account aliases ≡ build_arn role account aliases
build_arn_idem role account aliases h n =
    build_arn_of_arn (build_arn role account aliases) account aliases n
      (build_arn-IsArn role account aliases h)

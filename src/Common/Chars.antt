-- ===== src/Common/Chars.antt =====
-- Go's `strings` and `encoding/hex`, by walking a text: `Split` at one character, `TrimSpace`,
-- `CutPrefix` and `EncodeToString`.
use Prim.Native.Nat.{ℕ, zero, suc, ◌+◌, ◌-◌, ◌/◌, ◌%◌}
use Prim.Native.Char.{Char, code}
use Prim.Native.String.{String}
use Prim.Native.String.append.{nil, cons}
use mathlib.Core.Path.{◌≡◌, refl, ap, ◌∙◌}
use mathlib.Core.Logic.{inl, inr}
use mathlib.Core.Bool.{Bool, true, false, ◌&&◌, ◌||◌}
use mathlib.Core.Option.{Option, none, some}
use mathlib.Core.List.{List, [], ◌∷◌}
use native.Mathlib.Omega.{arith}
use ride_matching_engine.Common.Tests.{◌==◌, leb, ltb, if◌then◌else◌, Bool-cases}
use ride_matching_engine.Common.Texts.{◌<>◌}

-- A character in front of the first part.
abbrev onto_first : Char → List String → List String
onto_first c [] = (String.◌∷◌ c String.[]) ∷ []
onto_first c (p ∷ ps) = (String.◌∷◌ c p) ∷ ps

-- `strings.Split` at the character with this code.
unfoldable pub split : ℕ → String → List String
split sep String.[] = String.[] ∷ []
split sep (String.◌∷◌ c s) =
    let rest = split sep s in if code c == sep then String.[] ∷ rest else onto_first c rest

-- No character of the text has this code.
abbrev pub Lacks : ℕ → String → Type 0
Lacks sep String.[] = Unit
Lacks sep (String.◌∷◌ c s) = ((code c == sep) ≡ false) × Lacks sep s

pub split-Lacks : (sep : ℕ) (s : String) → Lacks sep s → split sep s ≡ s ∷ []
unfolding split
split-Lacks sep String.[] h = refl
split-Lacks sep (String.◌∷◌ c s) (n, h) = rw (n, split-Lacks sep s h) refl

-- At a separator behind a text that lacks it, the split goes on with the rest.
pub split_at :
    (sep : ℕ) (d : Char) (s t : String)
    → Lacks sep s
    → (code d == sep) ≡ true
    → split sep (s <> String.◌∷◌ d t) ≡ s ∷ split sep t
unfolding split ◌<>◌
split_at sep d String.[] t h e = rw (nil, e) refl
split_at sep d (String.◌∷◌ c s) t (n, h) e = rw (cons, n, split_at sep d s t h e) refl

-- The white space of `strings.TrimSpace`.
unfoldable pub is_space : ℕ → Bool
is_space c =
    (leb 9 c && leb c 13)
    || c == 32
    || c == 0x85
    || c == 0xA0
    || c == 0x1680
    || (leb 0x2000 c && leb c 0x200A)
    || c == 0x2028
    || c == 0x2029
    || c == 0x202F
    || c == 0x205F
    || c == 0x3000

unfoldable pub trim_left : String → String
trim_left String.[] = String.[]
trim_left (String.◌∷◌ c s) =
    let rest = trim_left s in if is_space (code c) then rest else String.◌∷◌ c s

is_empty : String → Bool
is_empty String.[] = true
is_empty (String.◌∷◌ c s) = false

unfoldable pub trim_right : String → String
unfolding is_empty
trim_right String.[] = String.[]
trim_right (String.◌∷◌ c s) =
    let rest = trim_right s in
    if is_empty rest && is_space (code c) then String.[] else String.◌∷◌ c rest

unfoldable pub trim_space : String → String
trim_space s = trim_right (trim_left s)

-- The number of bytes of a character in UTF-8, and of a text: Go's `len`.
unfoldable pub byte_width : ℕ → ℕ
byte_width c = if ltb c 0x80 then 1 else if ltb c 0x800 then 2 else if ltb c 0x10000 then 3 else 4

unfoldable pub byte_length : String → ℕ
byte_length String.[] = 0
byte_length (String.◌∷◌ c s) = byte_width (code c) + byte_length s

-- The characters within the first bytes: `s[:n]`, without the rest of a character that it cuts.
unfoldable pub take_bytes : ℕ → String → String
take_bytes n String.[] = String.[]
take_bytes n (String.◌∷◌ c s) =
    let rest = take_bytes (n - byte_width (code c)) s in
    if leb (byte_width (code c)) n then String.◌∷◌ c rest else String.[]

-- The characters that pass a test on their codes.
unfoldable pub keep : (ℕ → Bool) → String → String
keep p String.[] = String.[]
keep p (String.◌∷◌ c s) = let rest = keep p s in if p (code c) then String.◌∷◌ c rest else rest

-- Every character passes the test.
abbrev pub AllChars : (ℕ → Bool) → String → Type 0
AllChars p String.[] = Unit
AllChars p (String.◌∷◌ c s) = (p (code c) ≡ true) × AllChars p s

-- `strings.Trim` of one character.
unfoldable pub drop_left : ℕ → String → String
drop_left d String.[] = String.[]
drop_left d (String.◌∷◌ c s) =
    let rest = drop_left d s in if code c == d then rest else String.◌∷◌ c s

unfoldable pub drop_right : ℕ → String → String
unfolding is_empty
drop_right d String.[] = String.[]
drop_right d (String.◌∷◌ c s) =
    let rest = drop_right d s in
    if is_empty rest && code c == d then String.[] else String.◌∷◌ c rest

unfoldable pub trim_char : ℕ → String → String
trim_char d s = drop_right d (drop_left d s)

pub keep-AllChars : (p : ℕ → Bool) (s : String) → AllChars p (keep p s)
unfolding keep
keep-AllChars p String.[] = tt
keep-AllChars p (String.◌∷◌ c s) = elim (Bool-cases (p (code c))) [
  | inl e ↦ rw e (e, keep-AllChars p s)
  | inr e ↦ rw e (keep-AllChars p s)
]

-- What follows the prefix.
unfoldable pub cut_prefix : String → String → Option String
cut_prefix String.[] s = some s
cut_prefix (String.◌∷◌ p ps) String.[] = none
cut_prefix (String.◌∷◌ p ps) (String.◌∷◌ c s) =
    let rest = cut_prefix ps s in if code p == code c then rest else none

abbrev digits : List Char
digits =
    "0" ∷ "1" ∷ "2" ∷ "3" ∷ "4" ∷ "5" ∷ "6" ∷ "7" ∷ "8" ∷ "9" ∷ "a" ∷ "b" ∷ "c" ∷ "d" ∷ "e" ∷ "f"
    ∷ []

pick : List Char → ℕ → Char
pick [] n = "0"
pick (c ∷ cs) zero = c
pick (c ∷ cs) (suc n) = pick cs n

-- The digit of a number below 16.
unfoldable pub hex_digit : ℕ → Char
unfolding pick
hex_digit n = pick digits n

-- `hex.EncodeToString`.
unfoldable pub hex : List ℕ → String
hex [] = String.[]
hex (b ∷ bs) = String.◌∷◌ (hex_digit (b / 16)) (String.◌∷◌ (hex_digit (b % 16)) (hex bs))

abbrev AllBut : ℕ → List Char → Type 0
AllBut sep [] = Unit
AllBut sep (c ∷ cs) = ((code c == sep) ≡ false) × AllBut sep cs

pick_lem :
    (sep : ℕ) (cs : List Char) (n : ℕ)
    → AllBut sep cs
    → (b'0' == sep) ≡ false
    → (code (pick cs n) == sep) ≡ false
unfolding pick
pick_lem sep [] n h e = e
pick_lem sep (c ∷ cs) zero h e = h.0
pick_lem sep (c ∷ cs) (suc n) h e = pick_lem sep cs n h.1 e

hex_digit_lem : (n : ℕ) → (code (hex_digit n) == b'_') ≡ false
unfolding hex_digit
hex_digit_lem n = pick_lem b'_' digits n (ground arith) refl

pub hex-Lacks : (bs : List ℕ) → Lacks b'_' (hex bs)
unfolding hex
hex-Lacks [] = tt
hex-Lacks (b ∷ bs) = (hex_digit_lem (b / 16), (hex_digit_lem (b % 16), hex-Lacks bs))

-- At a NUL behind a text that has none, the split goes on with the rest.
pub split_nul : (s t : String) → Lacks 0 s → split 0 (s <> ("\0" <> t)) ≡ s ∷ split 0 t
unfolding ◌<>◌
split_nul s t h =
    ap (λ (r : String). split 0 (s <> r)) (cons "\0" String.[] t ∙ ap (String.◌∷◌ "\0") (nil t))
    ∙ split_at 0 "\0" s t h refl

-- At an underscore behind a text that has none, the split goes on with the rest.
pub split_underscore :
    (s t : String) → Lacks b'_' s → split b'_' (s <> ("_" <> t)) ≡ s ∷ split b'_' t
unfolding ◌<>◌
split_underscore s t h =
    ap (λ (r : String). split b'_' (s <> r)) (cons "_" String.[] t ∙ ap (String.◌∷◌ "_") (nil t))
    ∙ split_at b'_' "_" s t h refl

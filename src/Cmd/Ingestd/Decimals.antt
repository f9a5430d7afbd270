-- ===== src/Cmd/Ingestd/Decimals.antt =====
-- The decimal texts of `itoa`.
use ride_matching_engine.Common.{
  ℕ, zero, suc, ◌+◌, ◌-◌, ◌*◌, ◌/◌, ◌%◌, ◌≤◌, ◌<◌, ◌≡◌, refl, ap, ◌∙◌, true, false, some, List, [],
  ◌∷◌, ℤ, pos, negsuc, All, inl, inr, Bool-cases, arith, ◌==◌, if◌then◌else◌,
}
use ride_matching_engine.Common.Int.{ltb_ℤ}
use ride_matching_engine.Time.{same_ℤ}
use ride_matching_engine.Cmd.Ingestd.{least, negated, fill, signed, itoa}

-- A power of ten.
abbrev tens : ℕ → ℕ
tens zero = 1
tens (suc j) = 10 * tens j

abbrev pub IsDigit : ℕ → Type 0
IsDigit c = (b'0' ≤ c) × (c ≤ b'9')

-- The number that digits spell behind `n`.
abbrev pub value : ℕ → List ℕ → ℕ
value n [] = n
value n (c ∷ s) = value (n * 10 + (c - b'0')) s

abbrev pub minus : ℕ → ℤ
minus zero = pos 0
minus (suc n) = negsuc n

-- The number that a text spells, with a minus sign or none.
abbrev pub spelt : List ℕ → ℤ
spelt [] = pos 0
spelt (c ∷ s) = if c == b'-' then minus (value 0 s) else pos (value 0 (c ∷ s))

-- With a free cell for each digit the buffer is enough.
fill_lem :
    (room n j : ℕ) (out : List ℕ)
    → n < tens j
    → j ≤ room
    → All IsDigit out
    → (left : ℕ) × (digits : List ℕ) × (fill room n out ≡ some (left, digits))
      × (room ≤ left + j)
      × All IsDigit digits
      × (value 0 digits ≡ value n out)
unfolding fill
fill_lem zero n zero out h fits d = (0, out, ground arith, omega arith, d, ground arith)
fill_lem zero n (suc j) out h fits d = absurd (omega arith)
fill_lem (suc room) n zero out h fits d =
    (suc room, out, ground arith, omega arith, d, ground arith)
fill_lem (suc room) n (suc j) out h fits d = elim (Bool-cases (n == 0)) [
  | inl done ↦
      let e : n ≡ 0 = ground arith in (suc room, out, rw done refl, omega arith, d, rw e refl)
  | inr more ↦
      let (left, digits, run, cells, good, v) =
        fill_lem room (n / 10) j ((b'0' + n % 10) ∷ out) (omega arith) (omega arith)
          ((omega arith, omega arith), d) in
      (left, digits, rw more run, omega arith, good, v ∙ ap (λ (m : ℕ). value m out) (omega arith))
]

value-digits : (c : ℕ) (s : List ℕ) → IsDigit c → spelt (c ∷ s) ≡ pos (value 0 (c ∷ s))
value-digits c s d = let e : (c == b'-') ≡ false = ground arith in rw e refl

spelt-digits : (s : List ℕ) → All IsDigit s → spelt s ≡ pos (value 0 s)
spelt-digits [] h = refl
spelt-digits (c ∷ s) h = value-digits c s h.0

-- The magnitude of an int64 that is not the least has nineteen digits at most.
fill_64 :
    (n : ℕ)
    → n < 9223372036854775808
    → (left : ℕ) × (digits : List ℕ) × (fill 20 n [] ≡ some (suc left, digits))
      × All IsDigit digits
      × (value 0 digits ≡ n)
fill_64 n h =
    let (left, digits, run, cells, good, v) = fill_lem 20 n 19 [] (omega arith) (omega arith) tt in
    let e : left ≡ suc (left - 1) = omega arith in
    (left - 1, digits, run ∙ ap (λ (k : ℕ). some (k, digits)) e, good, v)

itoa_pos :
    (n left : ℕ) (digits : List ℕ)
    → fill 20 (suc n) [] ≡ some (suc left, digits)
    → itoa (pos (suc n)) ≡ some digits
unfolding itoa signed
itoa_pos n left digits run =
    let e : same_ℤ (pos (suc n)) (pos 0) ≡ false = ground arith in
    let f : ltb_ℤ (pos (suc n)) (pos 0) ≡ false = ground arith in rw (e, f, run) refl

itoa_neg :
    (n left : ℕ) (digits : List ℕ)
    → suc n < 9223372036854775808
    → fill 20 (suc n) [] ≡ some (suc left, digits)
    → itoa (negsuc n) ≡ some (b'-' ∷ digits)
unfolding itoa negated signed
itoa_neg n left digits small run =
    let e : same_ℤ (negsuc n) (pos 0) ≡ false = ground arith in
    let f : ltb_ℤ (negsuc n) (pos 0) ≡ true = ground arith in
    let g : same_ℤ (negsuc n) least ≡ false = ground arith in rw (e, f, g, run) refl

itoa_least : itoa least ≡ some (b'-' ∷ [])
unfolding itoa negated signed fill
itoa_least = refl

itoa_zero : itoa (pos 0) ≡ some (b'0' ∷ [])
unfolding itoa
itoa_zero = refl

-- For each int64 but the least, `itoa` does not write outside of its buffer, and its text spells the
-- number; for the least it prints a minus sign and no digit.
pub itoa-spelt :
    (n : ℕ)
    → n < 9223372036854775808
    → ((text : List ℕ) × (itoa (pos n) ≡ some text) × (spelt text ≡ pos n))
      × ((text : List ℕ) × (itoa (minus n) ≡ some text) × (spelt text ≡ minus n))
      × (itoa least ≡ some (b'-' ∷ []))
itoa-spelt zero h = ((b'0' ∷ [], itoa_zero, refl), (b'0' ∷ [], itoa_zero, refl), itoa_least)
itoa-spelt (suc n) h =
    let (left, digits, run, good, v) = fill_64 (suc n) h in
    (
      (digits, itoa_pos n left digits run, spelt-digits digits good ∙ ap pos v),
      (b'-' ∷ digits, itoa_neg n left digits h run, ap minus v),
      itoa_least,
    )

-- ===== src/Cmd/Loadtest/Samples.antt =====
-- Counts, sums and positions of samples in ascending order.
use ride_matching_engine.Common.{
  ℕ, zero, suc, ◌+◌, ◌*◌, pos, ◌≤◌, ◌<◌, ◌≡◌, refl, Bool, true, List, [], ◌∷◌, arith, leb, length,
  All, if◌then◌else◌,
}
use ride_matching_engine.Cmd.Loadtest.{sample_at, total, sum_bits, as_int64}

abbrev pub count : (ℕ → Bool) → List ℕ → ℕ
count p [] = 0
count p (x ∷ xs) = if p x then suc (count p xs) else count p xs

abbrev pub sum : List ℕ → ℕ
sum [] = 0
sum (x ∷ xs) = x + sum xs

-- Two lists that every test counts alike.
abbrev pub SameCounts : List ℕ → List ℕ → Type 0
SameCounts xs ys = (p : ℕ → Bool) → count p xs ≡ count p ys

abbrev pub Ascending : List ℕ → Type 0
Ascending [] = Unit
Ascending (x ∷ xs) = All (λ y. x ≤ y) xs × Ascending xs

pub count_all : (xs : List ℕ) → count (λ x. true) xs ≡ length xs
count_all [] = refl
count_all (x ∷ xs) = omega (arith, count_all xs)

All-trans : {a b : ℕ} → a ≤ b → (xs : List ℕ) → All (λ y. b ≤ y) xs → All (λ y. a ≤ y) xs
All-trans le [] h = tt
All-trans le (x ∷ xs) h = (omega arith, All-trans le xs h.1)

-- In an ascending slice a later sample is no smaller, nor is one below the first.
pub sample_at-le : (x : ℕ) (xs : List ℕ) (i : ℕ) → Ascending (x ∷ xs) → x ≤ sample_at x xs i
unfolding sample_at
sample_at-le x xs zero h = omega arith
sample_at-le x [] (suc i) h = omega arith
sample_at-le x (y ∷ xs) (suc i) h = omega (arith, sample_at-le y xs i h.1)

pub sample_at_mono :
    (x : ℕ) (xs : List ℕ) (i j : ℕ)
    → Ascending (x ∷ xs)
    → i ≤ j
    → sample_at x xs i ≤ sample_at x xs j
unfolding sample_at
sample_at_mono x xs zero j h le = sample_at-le x xs j h
sample_at_mono x [] (suc i) zero h le = absurd (omega arith)
sample_at_mono x (y ∷ xs) (suc i) zero h le = absurd (omega arith)
sample_at_mono x [] (suc i) (suc j) h le = omega arith
sample_at_mono x (y ∷ xs) (suc i) (suc j) h le = sample_at_mono y xs i j h.1 (omega arith)

pub count_from : (v : ℕ) (xs : List ℕ) → All (λ y. v ≤ y) xs → count (λ y. leb v y) xs ≡ length xs
count_from v [] h = refl
count_from v (x ∷ xs) h = ground (arith, count_from v xs h.1)

-- As many samples as its index says are no greater than a sample, itself among them; and all but so
-- many are no smaller.
pub count_up_to :
    (x : ℕ) (xs : List ℕ) (i : ℕ)
    → Ascending (x ∷ xs)
    → i < suc (length xs)
    → suc i ≤ count (λ y. leb y (sample_at x xs i)) (x ∷ xs)
unfolding sample_at
count_up_to x xs zero h lt = ground arith
count_up_to x [] (suc i) h lt = absurd (omega arith)
count_up_to x (y ∷ xs) (suc i) h lt =
    let k = sample_at-le y xs i h.1 in ground (arith, count_up_to y xs i h.1)

pub count_down_to :
    (x : ℕ) (xs : List ℕ) (i : ℕ)
    → Ascending (x ∷ xs)
    → suc (length xs) ≤ count (λ y. leb (sample_at x xs i) y) (x ∷ xs) + i
unfolding sample_at
count_down_to x xs zero h = ground (arith, count_from x xs h.0)
count_down_to x [] (suc i) h = omega arith
count_down_to x (y ∷ xs) (suc i) h = ground (arith, count_down_to y xs i h.1)

pub sum-ge : (v : ℕ) (xs : List ℕ) → All (λ y. v ≤ y) xs → v * length xs ≤ sum xs
sum-ge v [] h = omega arith
sum-ge v (x ∷ xs) h = grind (arith, sum-ge v xs h.1)

pub sum-le :
    (x : ℕ) (xs : List ℕ)
    → Ascending (x ∷ xs)
    → sum (x ∷ xs) ≤ suc (length xs) * sample_at x xs (length xs)
unfolding sample_at
sum-le x [] h = omega arith
sum-le x (y ∷ xs) h = let k = sample_at-le y xs (length xs) h.1 in grind (arith, sum-le y xs h.1)

-- A sum below 2 ^ 63 does not wrap around.
sum_bits-sum : (xs : List ℕ) → sum xs < 9223372036854775808 → sum_bits xs ≡ sum xs
unfolding sum_bits
sum_bits-sum [] h = refl
sum_bits-sum (x ∷ xs) h = omega (arith, sum_bits-sum xs (omega arith))

pub total-sum : (xs : List ℕ) → sum xs < 9223372036854775808 → total xs ≡ pos (sum xs)
unfolding total as_int64
total-sum xs h = ground (arith, sum_bits-sum xs h)

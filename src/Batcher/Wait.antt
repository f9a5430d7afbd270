-- ===== src/Batcher/Wait.antt =====
-- `medianWait`: how long the median request of a batch waited. The waits are insertion-sorted.
use mathlib.Core.Option.{some-injective}
use ride_matching_engine.Common.{
  ℕ, zero, suc, ◌/◌, ◌-◌, ◌<◌, ◌≤◌, ◌+◌, ◌*◌, ◌≡◌, refl, subst, Bool, true, false, Option, none,
  some, List, [], ◌∷◌, arith, pos, if◌then◌else◌, length, All, get_elem?,
}
use ride_matching_engine.Common.Int.{◌-ℤ◌, ltb_ℤ, leb_ℤ, ◌≤ℤ◌}
use ride_matching_engine.Time.{Time, Duration, is_zero}
use ride_matching_engine.Queue.{Message}

unfoldable pub waits : {F : Type 0} → List (Message F) → Time → List Duration
waits [] now = []
waits (m ∷ ms) now =
    let rest = waits ms now in
    if is_zero m.request.requested_at then rest else (now -ℤ m.request.requested_at) ∷ rest

-- One round of the outer loop: `x` is swapped back past the greater waits. The list is the sorted
-- part from its end on.
sift : Duration → List Duration → List Duration
sift x [] = x ∷ []
sift x (y ∷ ys) = elim (ltb_ℤ x y) [ true ↦ y ∷ sift x ys | false ↦ x ∷ y ∷ ys ]

-- The outer loop: `done` is the sorted part, from its end on.
sort_from : List Duration → List Duration → List Duration
sort_from done [] = done
sort_from done (x ∷ xs) = sort_from (sift x done) xs

-- The element at index `i` of an array that is listed from its end on.
at_from_end : List Duration → ℕ → Option Duration
at_from_end xs i = get_elem? xs (length xs - 1 - i)

or_zero : Option Duration → Duration
or_zero none = pos 0
or_zero (some d) = d

-- `medianWait`.
unfoldable pub median_wait : {F : Type 0} → List (Message F) → Time → Duration
unfolding waits sift sort_from at_from_end or_zero
median_wait ms now =
    let sorted = sort_from [] (waits ms now) in or_zero (at_from_end sorted (length sorted / 2))

-- How many of the waits pass a test.
abbrev pub count : (Duration → Bool) → List Duration → ℕ
count p [] = 0
count p (x ∷ xs) = if p x then suc (count p xs) else count p xs

count-sift :
    (p : Duration → Bool) (x : Duration) (ys : List Duration)
    → count p (sift x ys) ≡ count p (x ∷ ys)
unfolding sift
count-sift p x [] = refl
count-sift p x (y ∷ ys) = ground (arith, count-sift p x ys)

count-sort_from :
    (p : Duration → Bool) (done xs : List Duration)
    → count p (sort_from done xs) ≡ count p done + count p xs
unfolding sort_from
count-sort_from p done [] = omega arith
count-sort_from p done (x ∷ xs) =
    ground (arith, count-sort_from p (sift x done) xs, count-sift p x done)

length-sift : (x : Duration) (ys : List Duration) → length (sift x ys) ≡ suc (length ys)
unfolding sift
length-sift x [] = refl
length-sift x (y ∷ ys) = ground (arith, length-sift x ys)

length-sort_from : (done xs : List Duration) → length (sort_from done xs) ≡ length done + length xs
unfolding sort_from
length-sort_from done [] = omega arith
length-sort_from done (x ∷ xs) =
    omega (arith, length-sort_from (sift x done) xs, length-sift x done)

-- The array is in order: no wait is above those behind it in this list.
abbrev Falls : List Duration → Type 0
Falls [] = Unit
Falls (x ∷ xs) = All (λ y. y ≤ℤ x) xs × Falls xs

All-sift :
    (t x : Duration) (ys : List Duration)
    → x ≤ℤ t
    → All (λ y. y ≤ℤ t) ys
    → All (λ y. y ≤ℤ t) (sift x ys)
unfolding sift
All-sift t x [] h a = (h, tt)
All-sift t x (y ∷ ys) h a = ground (arith, All-sift t x ys)

All-below :
    (t x : Duration) (ys : List Duration) → t ≤ℤ x → All (λ y. y ≤ℤ t) ys → All (λ y. y ≤ℤ x) ys
All-below t x [] h a = tt
All-below t x (y ∷ ys) h a = (omega arith, All-below t x ys h a.1)

sift-Falls : (x : Duration) (ys : List Duration) → Falls ys → Falls (sift x ys)
unfolding sift
sift-Falls x [] f = (tt, tt)
sift-Falls x (y ∷ ys) f = ground (arith, sift-Falls x ys, All-sift y x ys, All-below y x ys)

sort_from-Falls : (done xs : List Duration) → Falls done → Falls (sort_from done xs)
unfolding sort_from
sort_from-Falls done [] f = f
sort_from-Falls done (x ∷ xs) f = sort_from-Falls (sift x done) xs (sift-Falls x done f)

count_below :
    (t : Duration) (xs : List Duration)
    → All (λ y. y ≤ℤ t) xs
    → count (λ w. leb_ℤ w t) xs ≡ length xs
count_below t [] a = refl
count_below t (x ∷ xs) a = ground (arith, count_below t xs)

All-get_elem? :
    (x t : Duration) (k : ℕ) (s : List Duration)
    → All (λ y. y ≤ℤ x) s
    → get_elem? s k ≡ some t
    → t ≤ℤ x
All-get_elem? x t k [] a e = cc
All-get_elem? x t zero (y ∷ s) a e = subst (λ z. z ≤ℤ x) (some-injective y t e) a.0
All-get_elem? x t (suc k) (y ∷ s) a e = All-get_elem? x t k s a.1 e

get_elem?-some :
    (k : ℕ) (s : List Duration) → k < length s → (t : Duration) × (get_elem? s k ≡ some t)
get_elem?-some k [] h = absurd (omega arith)
get_elem?-some zero (x ∷ s) h = (x, refl)
get_elem?-some (suc k) (x ∷ s) h = get_elem?-some k s (omega arith)

abbrev Ranks : ℕ → Duration → List Duration → Type 0
Ranks k t s = (length s ≤ count (λ w. leb_ℤ w t) s + k) × (k < count (λ w. leb_ℤ t w) s)

head-Ranks : (x : Duration) (s : List Duration) → Falls (x ∷ s) → Ranks 0 x (x ∷ s)
head-Ranks x s f = ground (arith, count_below x s)

-- Counts around the element at place `k`, the end of the array being place 0.
get_elem?-Ranks :
    (k : ℕ) (t : Duration) (s : List Duration) → Falls s → get_elem? s k ≡ some t → Ranks k t s
get_elem?-Ranks k t [] f e = cc
get_elem?-Ranks zero t (x ∷ s) f e =
    subst (λ z. Ranks 0 z (x ∷ s)) (some-injective x t e) (head-Ranks x s f)
get_elem?-Ranks (suc k) t (x ∷ s) f e =
    ground (arith, get_elem?-Ranks k t s f.1 e, All-get_elem? x t k s f.0 e)

-- Of a batch in which some request is dated, at least half of the waits are as long as the median or
-- shorter, and at least half as long or longer.
pub median_wait_ranks :
    {F : Type 0} (ms : List (Message F)) (now : Time)
    → 0 < length (waits ms now)
    → let m = median_wait ms now in
      let ws = waits ms now in
      (length ws ≤ 2 * count (λ w. leb_ℤ w m) ws) × (length ws ≤ 2 * count (λ w. leb_ℤ m w) ws)
unfolding median_wait
median_wait_ranks ms now h =
    let ws = waits ms now in
    let s = sort_from [] ws in
    let n = length-sort_from [] ws in
    let (t, e) = get_elem?-some (length s - 1 - length s / 2) s (omega arith) in
    let r = get_elem?-Ranks (length s - 1 - length s / 2) t s (sort_from-Falls [] ws tt) e in
    rw (e, at_from_end, or_zero)
      (omega (
        arith,
        r,
        n,
        count-sort_from (λ w. leb_ℤ w t) [] ws,
        count-sort_from (λ w. leb_ℤ t w) [] ws,
      ))

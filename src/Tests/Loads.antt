-- ===== src/Tests/Loads.antt =====
-- Six samples of a load test, with a sort and the ranks of whole percentages.
use ride_matching_engine.Common.{
  ℕ, ◌+◌, ◌*◌, ◌/◌, ◌≤◌, ◌≡◌, refl, Bool, inl, inr, List, [], ◌∷◌, leb, if◌then◌else◌, All, arith,
  Bool-cases,
}
use ride_matching_engine.Cmd.Loadtest.{
  Percentile, fiftieth, ninety_fifth, ninety_ninth, last_of_thousand, stats, stats_of, index,
  sample_at, total, sum_bits, as_int64, divided,
}
use ride_matching_engine.Cmd.Loadtest.Samples.{count, Ascending, sum}
use ride_matching_engine.Cmd.Loadtest.Percentiles.{
  Sorts, Rises, Products, permille, Describes, stats-Describes,
}

insert : ℕ → List ℕ → List ℕ
insert x [] = x ∷ []
insert x (y ∷ ys) = if leb x y then x ∷ y ∷ ys else y ∷ insert x ys

sort : List ℕ → List ℕ
unfolding insert
sort [] = []
sort (x ∷ xs) = insert x (sort xs)

insert-All : (v x : ℕ) (ys : List ℕ) → v ≤ x → All (λ y. v ≤ y) ys → All (λ y. v ≤ y) (insert x ys)
unfolding insert
insert-All v x [] a h = (a, tt)
insert-All v x (y ∷ ys) a h = elim (Bool-cases (leb x y)) [
  | inl e ↦ rw e (a, h)
  | inr e ↦ rw e (h.0, insert-All v x ys a h.1)
]

All-above : (v w : ℕ) (ys : List ℕ) → v ≤ w → All (λ y. w ≤ y) ys → All (λ y. v ≤ y) ys
All-above v w [] a h = tt
All-above v w (y ∷ ys) a h = (omega arith, All-above v w ys a h.1)

insert-Ascending : (x : ℕ) (ys : List ℕ) → Ascending ys → Ascending (insert x ys)
unfolding insert
insert-Ascending x [] h = (tt, tt)
insert-Ascending x (y ∷ ys) h = elim (Bool-cases (leb x y)) [
  | inl e ↦ let le : x ≤ y = ground arith in rw e ((le, All-above x y ys le h.0), h)
  | inr e ↦
      let le : y ≤ x = ground arith in rw e (insert-All y x ys le h.0, insert-Ascending x ys h.1)
]

count-insert : (p : ℕ → Bool) (x : ℕ) (ys : List ℕ) → count p (insert x ys) ≡ count p (x ∷ ys)
unfolding insert
count-insert p x [] = refl
count-insert p x (y ∷ ys) = ground (arith, count-insert p x ys)

sort-Ascending : (xs : List ℕ) → Ascending (sort xs)
unfolding sort
sort-Ascending [] = tt
sort-Ascending (x ∷ xs) = insert-Ascending x (sort xs) (sort-Ascending xs)

count-sort : (p : ℕ → Bool) (xs : List ℕ) → count p (sort xs) ≡ count p xs
unfolding sort
count-sort p [] = refl
count-sort p (x ∷ xs) = ground (arith, count-insert p x (sort xs), count-sort p xs)

sum-insert : (x : ℕ) (ys : List ℕ) → sum (insert x ys) ≡ x + sum ys
unfolding insert
sum-insert x [] = refl
sum-insert x (y ∷ ys) = ground (arith, sum-insert x ys)

sum-sort : (xs : List ℕ) → sum (sort xs) ≡ sum xs
unfolding sort
sum-sort [] = refl
sum-sort (x ∷ xs) = omega (arith, sum-insert x (sort xs), sum-sort xs)

sort-Sorts : Sorts sort
sort-Sorts = record { ascending = sort-Ascending; rearranged = count-sort; same_sum = sum-sort }

rank : Percentile → ℕ → ℕ
rank fiftieth n = n / 2
rank ninety_fifth n = n * 95 / 100
rank ninety_ninth n = n * 99 / 100
rank last_of_thousand n = n * 999 / 1000

rank-Rises : Rises rank
unfolding rank
rank-Rises = record {
  to_95 = λ n. omega arith;
  to_99 = λ n. omega arith;
  to_999 = λ n. omega arith;
}

abbrev samples : List ℕ
samples = 7 ∷ 3 ∷ 9 ∷ 1 ∷ 8 ∷ 2 ∷ []

rank-Products : Products rank 6
unfolding rank
rank-Products = record { below = below; above = above }
  where
    below : (p : Percentile) → 1000 * rank p 6 ≤ permille p * 6
    below fiftieth = omega arith
    below ninety_fifth = omega arith
    below ninety_ninth = omega arith
    below last_of_thousand = omega arith

    above : (p : Percentile) → permille p * 6 ≤ 1000 * (rank p 6 + 1)
    above fiftieth = omega arith
    above ninety_fifth = omega arith
    above ninety_ninth = omega arith
    above last_of_thousand = omega arith

stats-Describes_example : Describes samples (stats sort rank samples)
stats-Describes_example =
    stats-Describes rank rank-Rises sort samples sort-Sorts (λ e. cc) rank-Products (omega arith)

-- The median of an even number of samples is the upper one, and the greatest of two.
upper_median : ((stats sort rank samples).p50 ≡ 7) × ((stats sort rank (4 ∷ 6 ∷ [])).p50 ≡ 6)
unfolding stats stats_of sort insert rank index sample_at total sum_bits as_int64 divided
upper_median = (refl, refl)

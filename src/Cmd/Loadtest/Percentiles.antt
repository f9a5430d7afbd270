-- ===== src/Cmd/Loadtest/Percentiles.antt =====
-- What the figures of a load test say about its samples.
use native.Mathlib.Nat.{le-div_iff_mul-le, div-le_of_le-mul, le_antisymm}
use ride_matching_engine.Common.{
  ℕ, suc, ◌+◌, ◌-◌, ◌*◌, ◌/◌, pos, ◌≤◌, ◌<◌, ◌≡◌, ◌≢◌, refl, sym, ap, subst, ◌∙◌, Bool, true, List,
  [], ◌∷◌, arith, leb, length,
}
use ride_matching_engine.Common.Int.{◌≤ℤ◌}
use ride_matching_engine.Cmd.Loadtest.{
  Stats, Percentile, fiftieth, ninety_fifth, ninety_ninth, last_of_thousand, sample_at, divided,
  index, stats_of, stats,
}
use ride_matching_engine.Cmd.Loadtest.Samples.{
  count, sum, SameCounts, Ascending, count_all, sample_at-le, sample_at_mono, count_from,
  count_up_to, count_down_to, sum-ge, sum-le, total-sum,
}

-- `sort.Slice` with `<` puts the samples in ascending order, and rearranges them.
pub record Sorts (sort : List ℕ → List ℕ) : Type 0 where
  pub ascending : (xs : List ℕ) → Ascending (sort xs)
  pub rearranged : (p : ℕ → Bool) (xs : List ℕ) → count p (sort xs) ≡ count p xs
  pub same_sum : (xs : List ℕ) → sum (sort xs) ≡ sum xs

-- The products of the constants with a length rise with the constants.
pub record Rises (rank : Percentile → ℕ → ℕ) : Type 0 where
  pub to_95 : (n : ℕ) → rank fiftieth n ≤ rank ninety_fifth n
  pub to_99 : (n : ℕ) → rank ninety_fifth n ≤ rank ninety_ninth n
  pub to_999 : (n : ℕ) → rank ninety_ninth n ≤ rank last_of_thousand n

-- The constants in thousandths.
abbrev pub permille : Percentile → ℕ
permille fiftieth = 500
permille ninety_fifth = 950
permille ninety_ninth = 990
permille last_of_thousand = 999

-- The integral part of a constant's product with a length.
pub record Products (rank : Percentile → ℕ → ℕ) (n : ℕ) : Type 0 where
  pub below : (p : Percentile) → 1000 * rank p n ≤ permille p * n
  pub above : (p : Percentile) → permille p * n ≤ 1000 * (rank p n + 1)

abbrev pub figure : Percentile → Stats → ℕ
figure fiftieth st = st.p50
figure ninety_fifth st = st.p95
figure ninety_ninth st = st.p99
figure last_of_thousand st = st.p999

-- What the figures of samples mean. A percentile has its share of the samples up to it, and no more
-- than its share of them below it.
pub record Describes (samples : List ℕ) (st : Stats) : Type 0 where
  pub counted : st.count ≡ length samples
  pub in_order :
      (st.min ≤ st.p50)
      × (st.p50 ≤ st.p95)
      × (st.p95 ≤ st.p99)
      × (st.p99 ≤ st.p999)
      × (st.p999 ≤ st.max)
  pub least : count (λ y. leb st.min y) samples ≡ length samples
  pub greatest : count (λ y. leb y st.max) samples ≡ length samples
  pub up_to :
      (p : Percentile)
      → permille p * length samples ≤ 1000 * count (λ y. leb y (figure p st)) samples
  pub down_to :
      (p : Percentile)
      → 1000 * length samples
        ≤ 1000 * count (λ y. leb (figure p st) y) samples + permille p * length samples
  pub mean_between : (pos st.min ≤ℤ st.mean) × (st.mean ≤ℤ pos st.max)

count-le : (p : ℕ → Bool) (xs : List ℕ) → count p xs ≤ length xs
count-le p [] = omega arith
count-le p (x ∷ xs) = ground (arith, count-le p xs)

index-lt : (rank : Percentile → ℕ → ℕ) (p : Percentile) (n : ℕ) → 0 < n → index rank p n < n
unfolding index
index-lt rank p n h = ground arith

index_mono :
    (rank : Percentile → ℕ → ℕ) (p q : Percentile) (n : ℕ)
    → rank p n ≤ rank q n
    → index rank p n ≤ index rank q n
unfolding index
index_mono rank p q n h = ground arith

-- The index plus one is a percentile's share at least, and the index at most.
index-share :
    (rank : Percentile → ℕ → ℕ) (p : Percentile) (n : ℕ)
    → 0 < n
    → 1000 * rank p n ≤ permille p * n
    → permille p * n ≤ 1000 * (rank p n + 1)
    → (permille p * n ≤ 1000 * suc (index rank p n)) × (1000 * index rank p n ≤ permille p * n)
unfolding index
index-share rank fiftieth n h b a = ground arith
index-share rank ninety_fifth n h b a = ground arith
index-share rank ninety_ninth n h b a = ground arith
index-share rank last_of_thousand n h b a = ground arith

sort-ne : (sort : List ℕ → List ℕ) (x : ℕ) (xs : List ℕ) → Sorts sort → sort (x ∷ xs) ≢ []
sort-ne sort x xs sorts e = let n = sorts.rearranged (λ x. true) (x ∷ xs) in absurd (cc (rw e at n))

module _ (rank : Percentile → ℕ → ℕ) (rises : Rises rank) where
  figure-sample_at :
      (p : Percentile) (x : ℕ) (xs : List ℕ)
      → figure p (stats_of rank (x ∷ xs)) ≡ sample_at x xs (index rank p (suc (length xs)))
  unfolding stats_of
  figure-sample_at fiftieth x xs = refl
  figure-sample_at ninety_fifth x xs = refl
  figure-sample_at ninety_ninth x xs = refl
  figure-sample_at last_of_thousand x xs = refl

  heads_lem :
      (x : ℕ) (xs : List ℕ)
      → ((stats_of rank (x ∷ xs)).count ≡ suc (length xs)) × ((stats_of rank (x ∷ xs)).min ≡ x)
  unfolding stats_of
  heads_lem x xs = (refl, refl)

  max-sample_at : (x : ℕ) (xs : List ℕ) → (stats_of rank (x ∷ xs)).max ≡ sample_at x xs (length xs)
  unfolding stats_of
  max-sample_at x xs =
      let last : suc (length xs) - 1 ≡ length xs = omega arith in ap (sample_at x xs) last

  mean-sum :
      (x : ℕ) (xs : List ℕ)
      → sum (x ∷ xs) < 9223372036854775808
      → (stats_of rank (x ∷ xs)).mean ≡ pos (sum (x ∷ xs) / suc (length xs))
  unfolding stats_of divided
  mean-sum x xs small = ap (λ t. divided t (suc (length xs))) (total-sum (x ∷ xs) small)

  mean_bounds :
      (x : ℕ) (xs : List ℕ)
      → Ascending (x ∷ xs)
      → (x ≤ sum (x ∷ xs) / suc (length xs))
        × (sum (x ∷ xs) / suc (length xs) ≤ sample_at x xs (length xs))
  mean_bounds x xs h = (
    (le-div_iff_mul-le (omega arith)).1 (sum-ge x (x ∷ xs) (omega arith, h.0)),
    div-le_of_le-mul (suc (length xs)) (sum-le x xs h),
  )

  percentiles_rise :
      (x : ℕ) (xs : List ℕ)
      → Ascending (x ∷ xs)
      → (sample_at x xs (index rank fiftieth (suc (length xs)))
          ≤ sample_at x xs (index rank ninety_fifth (suc (length xs))))
        × (sample_at x xs (index rank ninety_fifth (suc (length xs)))
            ≤ sample_at x xs (index rank ninety_ninth (suc (length xs))))
        × (sample_at x xs (index rank ninety_ninth (suc (length xs)))
            ≤ sample_at x xs (index rank last_of_thousand (suc (length xs))))
        × (sample_at x xs (index rank last_of_thousand (suc (length xs)))
            ≤ sample_at x xs (length xs))
  percentiles_rise x xs h =
      let n = suc (length xs) in
      let mono = λ (p q : Percentile) (k : rank p n ≤ rank q n).
        sample_at_mono x xs (index rank p n) (index rank q n) h (index_mono rank p q n k) in
      (
        mono fiftieth ninety_fifth (rises.to_95 n),
        mono ninety_fifth ninety_ninth (rises.to_99 n),
        mono ninety_ninth last_of_thousand (rises.to_999 n),
        sample_at_mono x xs (index rank last_of_thousand n) (length xs) h
            (omega (arith, index-lt rank last_of_thousand n)),
      )

  all_up_to :
      (x : ℕ) (xs : List ℕ)
      → Ascending (x ∷ xs)
      → count (λ y. leb y (sample_at x xs (length xs))) (x ∷ xs) ≡ suc (length xs)
  all_up_to x xs h =
      let below = count_up_to x xs (length xs) h (omega arith) in
      let above = count-le (λ y. leb y (sample_at x xs (length xs))) (x ∷ xs) in
      le_antisymm above below

  stats_of-Describes :
      (x : ℕ) (xs : List ℕ)
      → Ascending (x ∷ xs)
      → Products rank (suc (length xs))
      → sum (x ∷ xs) < 9223372036854775808
      → Describes (x ∷ xs) (stats_of rank (x ∷ xs))
  stats_of-Describes x xs h products small =
      let at = λ (p : Percentile). figure-sample_at p x xs in
      let top = max-sample_at x xs in
      let low = (heads_lem x xs).1 in
      let (a, b, c, d) = percentiles_rise x xs h in
      let mean = mean_bounds x xs h in
      let share = λ (p : Percentile).
        index-share rank p (suc (length xs)) (omega arith) (products.below p) (products.above p) in
      let up = λ (p : Percentile).
        count_up_to x xs (index rank p (suc (length xs))) h
          (index-lt rank p (suc (length xs)) (omega arith)) in
      let down = λ (p : Percentile). count_down_to x xs (index rank p (suc (length xs))) h in
      record {
        counted = (heads_lem x xs).0;
        in_order = (
          rw (low, at fiftieth) (sample_at-le x xs (index rank fiftieth (suc (length xs))) h),
          rw (at fiftieth, at ninety_fifth) a,
          rw (at ninety_fifth, at ninety_ninth) b,
          rw (at ninety_ninth, at last_of_thousand) c,
          rw (at last_of_thousand, top) d,
        );
        least =
            subst (λ v. count (λ y. leb v y) (x ∷ xs) ≡ length (x ∷ xs)) (sym low)
              (count_from x (x ∷ xs) (omega arith, h.0));
        greatest =
            subst (λ v. count (λ y. leb y v) (x ∷ xs) ≡ length (x ∷ xs)) (sym top)
              (all_up_to x xs h);
        up_to = λ p.
            subst (λ v. permille p * suc (length xs) ≤ 1000 * count (λ y. leb y v) (x ∷ xs))
              (sym (at p)) (omega (arith, share p, up p));
        down_to = λ p.
            subst
              (λ v.
                1000 * suc (length xs)
                ≤ 1000 * count (λ y. leb v y) (x ∷ xs) + permille p * suc (length xs))
              (sym (at p)) (omega (arith, share p, down p));
        mean_between =
            rw (low, top, mean-sum x xs small) (omega (arith, mean), omega (arith, mean));
      }

  same-Describes :
      (xs ys : List ℕ) (st : Stats) → SameCounts xs ys → Describes xs st → Describes ys st
  same-Describes xs ys st same d =
      let n : length xs ≡ length ys = sym (count_all xs) ∙ same (λ x. true) ∙ count_all ys in
      record {
        counted = d.counted ∙ n;
        in_order = d.in_order;
        least = sym (same _) ∙ d.least ∙ n;
        greatest = sym (same _) ∙ d.greatest ∙ n;
        up_to = λ p. rw (← n, ← same (λ y. leb y (figure p st))) (d.up_to p);
        down_to = λ p. rw (← n, ← same (λ y. leb (figure p st) y)) (d.down_to p);
        mean_between = d.mean_between;
      }

  sorted-Describes :
      (xs : List ℕ)
      → xs ≢ []
      → Ascending xs
      → Products rank (length xs)
      → sum xs < 9223372036854775808
      → Describes xs (stats_of rank xs)
  sorted-Describes [] some_sample h products small = absurd (some_sample refl)
  sorted-Describes (x ∷ xs) some_sample h products small = stats_of-Describes x xs h products small

  -- Let `sort.Slice` sort; let the products of the constants with a length rise with the constants,
  -- and their integral parts for the number of samples be those of the exact products, or one less
  -- where these are whole; and let the samples, of which there is one at least, add up to less than
  -- 2 ^ 63. Then the figures are those of the samples: they are counted; the figures rise from the
  -- least to the greatest; of the samples at least a percentile's share is up to it, and at most that
  -- share is below it; and the mean is between the extremes.
  pub stats-Describes :
      (sort : List ℕ → List ℕ) (samples : List ℕ)
      → Sorts sort
      → samples ≢ []
      → Products rank (length samples)
      → sum samples < 9223372036854775808
      → Describes samples (stats sort rank samples)
  unfolding stats
  stats-Describes sort [] sorts some_sample products small = absurd (some_sample refl)
  stats-Describes sort (x ∷ xs) sorts some_sample products small =
      let ys = sort (x ∷ xs) in
      let n : length (x ∷ xs) ≡ length ys =
        sym (sym (count_all ys) ∙ sorts.rearranged (λ x. true) (x ∷ xs) ∙ count_all (x ∷ xs)) in
      same-Describes ys (x ∷ xs) _ (λ p. sorts.rearranged p (x ∷ xs))
        (sorted-Describes ys (sort-ne sort x xs sorts) (sorts.ascending (x ∷ xs))
          (subst (Products rank) n products) (rw (sorts.same_sum (x ∷ xs)) small))

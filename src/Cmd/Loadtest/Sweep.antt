-- ===== src/Cmd/Loadtest/Sweep.antt =====
-- The complexity sweep of the load generator, and the two places that say how its times grow:
-- infrastructure/cmd/loadtest/main.go and report.go. A ratio is the two points that it is of.
use ride_matching_engine.Common.{
  ℕ, ◌*◌, ◌≡◌, refl, ap, ◌∙◌, inl, inr, Bool, true, false, ◌&&◌, String, Option, none, some, List,
  [], ◌∷◌, ◌++◌, map, ltb, ◌==◌, same, if◌then◌else◌, arith, Bool-cases, not,
}
use ride_matching_engine.Cmd.Loadtest.{Stats, Percentile, stats}

-- `sweepPoint`.
pub record SweepPoint : Type 0 where
  pub series : String
  pub riders : ℕ
  pub drivers : ℕ
  pub k : ℕ
  pub solve : Stats

-- One timed call of the engine: it fails, or answers with the microseconds that it measured, after so
-- many nanoseconds.
pub data Timing : Type 0 where
  failed : Timing
  solved : ℕ → ℕ → Timing

-- The engine's own measurement where there is one.
unfoldable pub samples_of : List Timing → List ℕ
samples_of [] = []
samples_of (failed ∷ ts) = samples_of ts
samples_of (solved micros took ∷ ts) =
    (if ltb 0 micros then micros * 1000 else took) ∷ samples_of ts

-- One row of a sweep: the numbers of riders and drivers, the shortlist and the repeats.
pub record Shape : Type 0 where
  pub riders : ℕ
  pub drivers : ℕ
  pub k : ℕ
  pub repeats : ℕ

-- `measure`, with the series that its caller tags the point with; `time` is what the timed calls for a
-- shape give.
unfoldable pub measure :
    (List ℕ → List ℕ) → (Percentile → ℕ → ℕ) → (Shape → List Timing) → String → Shape → SweepPoint
measure sort rank time series shape = record {
  series = series;
  riders = shape.riders;
  drivers = shape.drivers;
  k = shape.k;
  solve = stats sort rank (samples_of (time shape));
}

abbrev riders_varying : ℕ → Shape
riders_varying n = record { riders = n; drivers = 2000; k = 8; repeats = 7 }

abbrev drivers_varying : ℕ → Shape
drivers_varying m = record { riders = 500; drivers = m; k = 8; repeats = 7 }

abbrev both_varying : ℕ → Shape
both_varying n = record { riders = n; drivers = n; k = 0; repeats = 3 }

-- The points of `runSweep`, and the dense ones of its control.
pub sweep : (List ℕ → List ℕ) → (Percentile → ℕ → ℕ) → (Shape → List Timing) → List SweepPoint
sweep sort rank time =
    map (λ n. measure sort rank time "N" (riders_varying n))
      (100 ∷ 200 ∷ 400 ∷ 800 ∷ 1600 ∷ 3200 ∷ [])
    ++ map (λ m. measure sort rank time "M" (drivers_varying m))
        (500 ∷ 1000 ∷ 2000 ∷ 4000 ∷ 8000 ∷ 16000 ∷ [])

pub dense_sweep : (List ℕ → List ℕ) → (Percentile → ℕ → ℕ) → (Shape → List Timing) → List SweepPoint
dense_sweep sort rank time =
    map (λ n. measure sort rank time "dense" (both_varying n)) (100 ∷ 200 ∷ 400 ∷ 800 ∷ [])

abbrev pub Ratio : Type 0
Ratio = SweepPoint × SweepPoint

-- A point of the series with a successful measurement.
abbrev belongs : String → SweepPoint → Bool
belongs series p = same p.series series && ltb 0 p.solve.count

-- The points of one series, `nPoints` and `mPoints` of `analyse`.
unfoldable pub points_of : String → List SweepPoint → List SweepPoint
points_of series [] = []
points_of series (p ∷ ps) =
    let rest = points_of series ps in if belongs series p then p ∷ rest else rest

abbrev ratio_to : SweepPoint → SweepPoint → List Ratio
ratio_to prev cur = if ltb 0 prev.solve.p50 then (prev, cur) ∷ [] else []

-- The loop over neighbours of `analyse`; behind `prev`.
unfoldable pub ratios_after : SweepPoint → List SweepPoint → List Ratio
ratios_after prev [] = []
ratios_after prev (p ∷ ps) = ratio_to prev p ++ ratios_after p ps

unfoldable pub ratios : List SweepPoint → List Ratio
ratios [] = []
ratios (p ∷ ps) = ratios_after p ps

-- What `analyse` prints: for the riders, for the drivers, and for the control.
unfoldable pub analyse : List SweepPoint → List SweepPoint → List Ratio × List Ratio × List Ratio
analyse sparse dense = (ratios (points_of "N" sparse), ratios (points_of "M" sparse), ratios dense)

-- A row of a table: its point, and the one before it that its ratio is to, or none for a dash.
abbrev pub Row : Type 0
Row = SweepPoint × Option SweepPoint

abbrev ratio_cell : Option SweepPoint → Option SweepPoint
ratio_cell none = none
ratio_cell (some prev) = if ltb 0 prev.solve.p50 then some prev else none

-- The rows of one table; `prev` is the point of the row above.
unfoldable pub rows_of : String → Option SweepPoint → List SweepPoint → List Row
rows_of series prev [] = []
rows_of series prev (p ∷ ps) =
    let skipped = rows_of series prev ps in
    let row_then = (p, ratio_cell prev) ∷ rows_of series (some p) ps in
    if not (same p.series series) then skipped else if p.solve.count == 0 then skipped else row_then

-- The rows of the control, which skips no point.
unfoldable pub dense_rows : Option SweepPoint → List SweepPoint → List Row
dense_rows prev [] = []
dense_rows prev (p ∷ ps) = (p, ratio_cell prev) ∷ dense_rows (some p) ps

-- The tables of `writeSweepReport`.
unfoldable pub report : List SweepPoint → List SweepPoint → List Row × List Row × List Row
report sparse dense = (rows_of "N" none sparse, rows_of "M" none sparse, dense_rows none dense)

-- The ratios that a table shows.
abbrev shown : SweepPoint → Option SweepPoint → List Ratio
shown p none = []
shown p (some prev) = (prev, p) ∷ []

abbrev pub ratios_shown : List Row → List Ratio
ratios_shown [] = []
ratios_shown ((p, prev) ∷ rs) = shown p prev ++ ratios_shown rs

-- The ratios behind a point, or behind none.
abbrev ratios_from : Option SweepPoint → List SweepPoint → List Ratio
ratios_from none ps = ratios ps
ratios_from (some prev) ps = ratios_after prev ps

shown-ratio_cell :
    (prev : Option SweepPoint) (p : SweepPoint) (ps : List SweepPoint)
    → shown p (ratio_cell prev) ++ ratios_after p ps ≡ ratios_from prev (p ∷ ps)
unfolding ratios ratios_after
shown-ratio_cell none p ps = refl
shown-ratio_cell (some prev) p ps = elim (Bool-cases (ltb 0 prev.solve.p50)) [
  | inl e ↦ rw e refl
  | inr e ↦ rw e refl
]

rows_of_lem :
    (series : String) (prev : Option SweepPoint) (ps : List SweepPoint)
    → ratios_shown (rows_of series prev ps) ≡ ratios_from prev (points_of series ps)
unfolding rows_of points_of ratios ratios_after
rows_of_lem series none [] = refl
rows_of_lem series (some q) [] = refl
rows_of_lem series prev (p ∷ ps) = elim (Bool-cases (same p.series series)) [
  | inr other ↦ rw other (rows_of_lem series prev ps)
  | inl own ↦ elim (Bool-cases (ltb 0 p.solve.count)) [
    | inr empty ↦
        let e : (p.solve.count == 0) ≡ true = ground arith in
        rw (own, empty, e) (rows_of_lem series prev ps)
    | inl counted ↦
        let e : (p.solve.count == 0) ≡ false = ground arith in
        rw (own, counted, e)
          (ap (λ (rs : List Ratio). shown p (ratio_cell prev) ++ rs)
              (rows_of_lem series (some p) ps)
            ∙ shown-ratio_cell prev p (points_of series ps))
  ]
]

dense_rows_lem :
    (prev : Option SweepPoint) (ps : List SweepPoint)
    → ratios_shown (dense_rows prev ps) ≡ ratios_from prev ps
unfolding dense_rows ratios ratios_after
dense_rows_lem none [] = refl
dense_rows_lem (some q) [] = refl
dense_rows_lem prev (p ∷ ps) =
    ap (λ (rs : List Ratio). shown p (ratio_cell prev) ++ rs) (dense_rows_lem (some p) ps)
    ∙ shown-ratio_cell prev p ps

-- The report and the analysis on the terminal show the same growth, for any points: the ratios in
-- each of the three tables are those that `analyse` prints for it, in its order, each to the same
-- earlier point.
pub report-analyse :
    (sparse dense : List SweepPoint)
    → (ratios_shown (report sparse dense).0 ≡ (analyse sparse dense).0)
      × (ratios_shown (report sparse dense).1 ≡ (analyse sparse dense).1)
      × (ratios_shown (report sparse dense).2 ≡ (analyse sparse dense).2)
unfolding report analyse
report-analyse sparse dense =
    (rows_of_lem "N" none sparse, rows_of_lem "M" none sparse, dense_rows_lem none dense)

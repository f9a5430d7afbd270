-- ===== src/Batcher/Config.antt =====
-- The batcher's configuration, its defaults and the checks of `New`
-- (infrastructure/internal/batcher/batcher.go).
use ride_matching_engine.Common.{
  ℕ, ◌*◌, ◌<◌, subst, ◌≡◌, ◌≢◌, Bool, true, false, ◌&&◌, arith, same_iff, String, ℤ, pos, same,
  if◌then◌else◌, Bool-cases, inl, inr, refl,
}
use ride_matching_engine.Common.Int.{leb_ℤ, ltb_ℤ, ◌≤ℤ◌, ◌<ℤ◌}
use ride_matching_engine.Errors.{Fallible, ok, err, plain}
use ride_matching_engine.Floats.{Floats}
use ride_matching_engine.Time.{Duration}

pub data CostMetric : Type 0 where
  unspecified euclidean travel_time : CostMetric

abbrev pub is_travel_time : CostMetric → Bool
is_travel_time travel_time = true
is_travel_time _ = false

pub record Config (F : Type 0) : Type 0 where
  pub window : Duration
  pub max_batch_size : ℤ
  pub search_radius_meters : F
  pub max_candidates_per_rider : ℤ
  pub cost_metric : CostMetric
  pub road_graph_id : String
  pub solve_timeout : Duration
  pub reclaim_every : Duration
  pub reclaim_min_idle : Duration
  pub max_match_attempts : ℤ

abbrev pub seconds : ℕ → Duration
seconds n = pos (n * 1000000000)

abbrev positive_or : ℤ → ℤ → ℤ
positive_or x d = if leb_ℤ x (pos 0) then d else x

module _ (fl : Floats) where
  open fl use {F, at_most, literal}

  abbrev pub default_config : Config F
  default_config = record {
    window = seconds 3;
    max_batch_size = pos 500;
    search_radius_meters = literal (pos 5000);
    max_candidates_per_rider = pos 8;
    cost_metric = euclidean;
    road_graph_id = "";
    solve_timeout = seconds 2;
    reclaim_every = seconds 30;
    reclaim_min_idle = seconds 60;
    max_match_attempts = pos 20;
  }

  unfoldable pub apply_defaults : Config F → Config F
  apply_defaults c = record c {
    window = positive_or c.window (seconds 3);
    max_batch_size = positive_or c.max_batch_size (pos 500);
    search_radius_meters =
        if at_most c.search_radius_meters (literal (pos 0))
        then literal (pos 5000)
        else c.search_radius_meters;
    max_candidates_per_rider =
        if ltb_ℤ c.max_candidates_per_rider (pos 0) then pos 8 else c.max_candidates_per_rider;
    solve_timeout = positive_or c.solve_timeout (seconds 2);
    reclaim_every = positive_or c.reclaim_every (seconds 30);
    reclaim_min_idle = positive_or c.reclaim_min_idle (seconds 60);
    max_match_attempts = positive_or c.max_match_attempts (pos 20);
  }

  -- The refusals of `New`; those of `nil` collaborators have no counterpart.
  unfoldable pub check : Config F → Fallible (Config F)
  check d =
      if leb_ℤ d.window d.solve_timeout
      then err (plain "batcher: SolveTimeout must be shorter than Window")
      else if is_travel_time d.cost_metric && same d.road_graph_id ""
      then err (plain "batcher: RoadGraphID is required for TRAVEL_TIME pricing")
      else ok d

  -- `New`: the configuration that the batcher runs with.
  unfoldable pub new : Config F → Fallible (Config F)
  new c = check (apply_defaults c)

  pub record HasPositives (c : Config F) : Type 0 where
    pub window_pos : pos 0 <ℤ c.window
    pub solve_pos : pos 0 <ℤ c.solve_timeout
    pub radius_over : at_most c.search_radius_meters (literal (pos 0)) ≡ false
    pub batch_pos : pos 0 <ℤ c.max_batch_size
    pub candidates_nonneg : pos 0 ≤ℤ c.max_candidates_per_rider
    pub reclaim_pos : (pos 0 <ℤ c.reclaim_every) × (pos 0 <ℤ c.reclaim_min_idle)
    pub attempts_pos : pos 0 <ℤ c.max_match_attempts

  -- What a batcher can rely on once `New` has accepted its configuration.
  pub record IsRunnable (c : Config F) : Type 0 where
    pub positives : HasPositives c
    pub solve_fits : c.solve_timeout <ℤ c.window
    pub graph_named : c.cost_metric ≡ travel_time → c.road_graph_id ≢ ""

positive_or-pos : (x : ℤ) (n : ℕ) → 0 < n → pos 0 <ℤ positive_or x (pos n)
positive_or-pos x n h = ground arith

candidates-nonneg : (x : ℤ) → pos 0 ≤ℤ (if ltb_ℤ x (pos 0) then pos 8 else x)
candidates-nonneg x = ground arith

module _ (fl : Floats) where
  open fl use {F, at_most, literal}

  -- The default radius is not at most zero.
  abbrev pub HasRadius : Type 0
  HasRadius = at_most (literal (pos 5000)) (literal (pos 0)) ≡ false

  radius_over_zero :
      (x : F)
      → HasRadius
      → at_most (if at_most x (literal (pos 0)) then literal (pos 5000) else x) (literal (pos 0))
        ≡ false
  radius_over_zero x h = elim (Bool-cases (at_most x (literal (pos 0)))) [
    | inl e ↦ rw e h
    | inr e ↦ rw (e, e) refl
  ]

  apply_defaults-HasPositives : HasRadius → (c : Config F) → HasPositives fl (apply_defaults fl c)
  unfolding apply_defaults
  apply_defaults-HasPositives h c = record {
    window_pos = positive_or-pos c.window 3000000000 (omega arith);
    solve_pos = positive_or-pos c.solve_timeout 2000000000 (omega arith);
    radius_over = radius_over_zero c.search_radius_meters h;
    batch_pos = positive_or-pos c.max_batch_size 500 (omega arith);
    candidates_nonneg = candidates-nonneg c.max_candidates_per_rider;
    reclaim_pos = (
      positive_or-pos c.reclaim_every 30000000000 (omega arith),
      positive_or-pos c.reclaim_min_idle 60000000000 (omega arith),
    );
    attempts_pos = positive_or-pos c.max_match_attempts 20 (omega arith);
  }

  check_passed :
      (c d : Config F)
      → check fl c ≡ ok d
      → (c ≡ d)
        × (d.solve_timeout <ℤ d.window)
        × (d.cost_metric ≡ travel_time → d.road_graph_id ≢ "")
  unfolding check
  check_passed c d h = ground (arith, same_iff c.road_graph_id "", same_iff d.road_graph_id "")

  -- Where the comparison of floats does not take 5000 for at most 0: `New` accepts only a
  -- configuration whose times, batch size and match attempts are positive, whose candidates are not
  -- negative, and whose search radius does not compare as at most zero, with a solve that fits its
  -- window, and a road graph named where prices are travel times.
  pub new-IsRunnable : HasRadius → (c d : Config F) → new fl c ≡ ok d → IsRunnable fl d
  unfolding new
  new-IsRunnable radius c d h =
      let (e, fits, named) = check_passed (apply_defaults fl c) d h in
      record {
        positives = subst (HasPositives fl) e (apply_defaults-HasPositives radius c);
        solve_fits = fits;
        graph_named = named;
      }

-- ===== src/Cmd/Batcherd/Startup.antt =====
-- How the batcher service starts: its probes end, and which flags it runs with.
use ride_matching_engine.Common.{
  ℕ, zero, suc, ◌+◌, ◌*◌, ◌≤◌, ◌≡◌, ◌≢◌, refl, sym, ap, ◌∙◌, ◌↔◌, Bool, true, false, not, ◌&&◌,
  none, some, ◌⊎◌, inl, inr, ℤ, pos, negsuc, Bool-cases, arith, ltb→lt, String, same, same_iff,
  ne→same, if◌then◌else◌,
}
use ride_matching_engine.Common.Int.{◌+ℤ◌, +ℤ_parts, eq_of_parts, ltb_ℤ, leb_ℤ, ◌≤ℤ◌}
use ride_matching_engine.Errors.{Error, plain}
use ride_matching_engine.Floats.{Floats}
use ride_matching_engine.Time.{Time, Duration, same_ℤ}
use ride_matching_engine.Engine.{served}
use ride_matching_engine.Batcher.Config.{Config, apply_defaults, check, new, is_travel_time}
use ride_matching_engine.Cmd.Ingestd.{half}
use ride_matching_engine.Cmd.Batcherd.{
  Flags, Probe, is_reached, warm, warm_up, batcher_config, configured, launch,
}

-- An answer, or the deadline.
abbrev pub Settled : Time → ℕ × Time × Probe → Type 0
Settled deadline (n, now, p) = (is_reached p ≡ true) ⊎ (deadline ≤ℤ now)

-- A probe that the test lets begin is not the twenty-fourth.
in_time :
    (now started : Time) (i : ℕ)
    → started +ℤ pos (2000000000 * i) ≤ℤ now
    → ltb_ℤ now (started +ℤ pos 45000000000) ≡ true
    → suc i ≤ 23
in_time now started i on early =
    let lt = ltb→lt _ _ early in
    omega
      (arith, +ℤ_parts started (pos (2000000000 * i)), +ℤ_parts started (pos 45000000000), on, lt)

-- Each sleep puts the clock two seconds on, at least.
sleep_on :
    (now started : Time) (i took : ℕ)
    → started +ℤ pos (2000000000 * i) ≤ℤ now
    → started +ℤ pos (2000000000 * suc i) ≤ℤ now +ℤ pos (took + 2000000000)
sleep_on now started i took on = omega (
  arith,
  +ℤ_parts started (pos (2000000000 * i)),
  +ℤ_parts started (pos (2000000000 * suc i)),
  +ℤ_parts now (pos (took + 2000000000)),
  on,
)

warm_ends :
    (took : ℕ → ℕ) (probe : ℕ → Probe) (started : Time) (fuel i : ℕ) (now : Time) (last : Probe)
    → started +ℤ pos (2000000000 * i) ≤ℤ now
    → 24 ≤ fuel + i
    → i ≤ 23
    → (n : ℕ) × (t : Time) × (p : Probe) × (warm took probe
          (started +ℤ pos 45000000000)
          fuel
          i
          now
          last
        ≡ some (n, t, p))
      × (n ≤ 23)
      × Settled (started +ℤ pos 45000000000) (n, t, p)
unfolding warm
warm_ends took probe started zero i now last on enough below = absurd (omega arith)
warm_ends took probe started (suc fuel) i now last on enough below =
    elim (Bool-cases (ltb_ℤ now (started +ℤ pos 45000000000))) [
      | inr over ↦ (i, now, last, rw over refl, below, inr (ground arith))
      | inl early ↦ elim (Bool-cases (is_reached (probe i))) [
        | inl up ↦
            (suc i, now, probe i, rw (early, up) refl, in_time now started i on early, inl up)
        | inr down ↦
            let (n, t, p, e, h, settled) =
              warm_ends took probe started fuel (suc i) (now +ℤ pos (took i + 2000000000)) (probe i)
                (sleep_on now started i (took i) on) (omega arith)
                (in_time now started i on early) in
            (n, t, p, rw (early, down) e, h, settled)
      ]
    ]

-- However long the probes take and the sleeps overshoot, and whatever the probes answer: the loop of
-- probes ends, given 24 steps of fuel or more, after 23 probes at most, with an engine that has answered, or
-- with a test at the deadline or behind it.
pub warm_up_ends :
    (took : ℕ → ℕ) (probe : ℕ → Probe) (started : Time) (lag fuel : ℕ)
    → 24 ≤ fuel
    → (n : ℕ) × (t : Time) × (p : Probe) × (warm_up took probe started lag fuel ≡ some (n, t, p))
      × (n ≤ 23)
      × Settled (started +ℤ pos 45000000000) (n, t, p)
unfolding warm_up
warm_up_ends took probe started lag fuel enough =
    warm_ends took probe started fuel 0 (started +ℤ pos lag) (none, none)
      (omega (arith, +ℤ_parts started (pos 0), +ℤ_parts started (pos lag))) (omega arith)
      (omega arith)

-- With a solve of half the window only a window of one nanosecond is refused: its half is nothing,
-- for which the default stands, and that is longer.
window_lem :
    (fl : Floats) (c : Config fl.F) (w : Duration)
    → c.window ≡ w
    → c.solve_timeout ≡ half w
    → leb_ℤ (apply_defaults fl c).window (apply_defaults fl c).solve_timeout ≡ same_ℤ w (pos 1)
unfolding apply_defaults half
window_lem fl c (pos n) e f = rw (e, f) (ground arith)
window_lem fl c (negsuc n) e f = rw (e, f) (ground arith)

same_ℤ→eq : (a b : ℤ) → same_ℤ a b ≡ true → a ≡ b
same_ℤ→eq a b h = eq_of_parts a b (ground arith)

Bool-false : {b : Bool} → (b ≡ true → ⊥) → b ≡ false
Bool-false {b = true} h = absurd (h refl)
Bool-false {b = false} h = refl

false-ne-true : false ≡ true → ⊥
false-ne-true h = cc

and-not : (a b : Bool) → (a && not b) ≡ false → a ≡ true → b ≡ true
and-not true true h e = refl
and-not true false h e = absurd (cc)
and-not false b h e = cc

and-not_of : (a b : Bool) → (a ≡ true → b ≡ true) → (a && not b) ≡ false
and-not_of true true h = refl
and-not_of true false h = absurd (cc (h refl))
and-not_of false b h = refl

inr_inj : {A B : Type 0} (c d : B) → ◌≡◌ {A = A ⊎ B} (inr c) (inr d) → c ≡ d
inr_inj c d h = ground (arith, h)

same_ℤ_self : (a : ℤ) → same_ℤ a a ≡ true
same_ℤ_self a = ground arith

module _ (fl : Floats) where
  open fl use {F}

  configured-check :
      (c : Config F) (a b : Bool) (g : String)
      → leb_ℤ c.window c.solve_timeout ≡ a
      → is_travel_time c.cost_metric ≡ b
      → c.road_graph_id ≡ g
      → configured fl (check fl c) ≡ (
          if a
          then inl (plain "batcher: SolveTimeout must be shorter than Window")
          else if b && same g ""
          then inl (plain "batcher: RoadGraphID is required for TRAVEL_TIME pricing")
          else inr c)
  unfolding configured check
  configured-check c true b g e h k = rw e refl
  configured-check c false true g e h k = elim (Bool-cases (same g "")) [
    | inl m ↦ rw (e, h, k, m) refl
    | inr m ↦ rw (e, h, k, m) refl
  ]
  configured-check c false false g e h k = rw (e, h) refl

  metric_lem :
      (f : Flags F)
      → is_travel_time (apply_defaults fl (batcher_config fl f)).cost_metric ≡ f.use_roads
  unfolding apply_defaults batcher_config
  metric_lem f = elim (Bool-cases f.use_roads) [ inl e ↦ rw e refl | inr e ↦ rw e refl ]

  graph_lem : (f : Flags F) → (apply_defaults fl (batcher_config fl f)).road_graph_id ≡ f.graph_id
  unfolding apply_defaults batcher_config
  graph_lem f = refl

  times_lem :
      (f : Flags F)
      → leb_ℤ
          (apply_defaults fl (batcher_config fl f)).window
          (apply_defaults fl (batcher_config fl f)).solve_timeout
        ≡ same_ℤ f.window (pos 1)
  unfolding batcher_config
  times_lem f = window_lem fl (batcher_config fl f) f.window refl refl

  -- What `New` makes of the flags.
  configured_lem :
      (f : Flags F)
      → configured fl (new fl (batcher_config fl f)) ≡ (
          if same_ℤ f.window (pos 1)
          then inl (plain "batcher: SolveTimeout must be shorter than Window")
          else if f.use_roads && same f.graph_id ""
          then inl (plain "batcher: RoadGraphID is required for TRAVEL_TIME pricing")
          else inr (apply_defaults fl (batcher_config fl f)))
  unfolding new
  configured_lem f =
      configured-check (apply_defaults fl (batcher_config fl f)) (same_ℤ f.window (pos 1))
        f.use_roads f.graph_id (times_lem f) (metric_lem f) (graph_lem f)

  -- The flags, and the last answer of the engine, with which the service runs.
  pub record MayRun (f : Flags F) (p : Probe) : Type 0 where
    pub window : f.window ≢ pos 1
    pub graph_named : f.use_roads ≡ true → f.graph_id ≢ ""
    pub graph_served : f.use_roads ≡ true → is_reached p ≡ true → (served f.graph_id p).0 ≡ true

  -- The decision of `launch` on the tests that it makes: for roads, an engine that answers and does
  -- not serve the graph; a window of one nanosecond; and a graph with no name.
  verdict : Bool → Bool → Bool → Bool → Config F → Error ⊎ Config F
  verdict roads absent narrow unnamed c =
      if roads && absent
      then inl (plain "the engine does not have this road graph loaded")
      else if narrow
      then inl (plain "batcher: SolveTimeout must be shorter than Window")
      else if roads && unnamed
      then inl (plain "batcher: RoadGraphID is required for TRAVEL_TIME pricing")
      else inr c

  abbrev absent : Flags F → Probe → Bool
  absent f p = is_reached p && not (served f.graph_id p).0

  launch-verdict :
      (f : Flags F) (p : Probe)
      → launch fl f p
        ≡ verdict f.use_roads
            (absent f p)
            (same_ℤ f.window (pos 1))
            (same f.graph_id "")
            (apply_defaults fl (batcher_config fl f))
  unfolding launch verdict
  launch-verdict f p =
      ap
        (λ (r : Error ⊎ Config F).
          if f.use_roads && absent f p
          then inl (plain "the engine does not have this road graph loaded")
          else r)
        (configured_lem f)

  verdict_iff :
      (u a w g : Bool) (c d : Config F)
      → (verdict u a w g c ≡ inr d)
        ↔ ((w ≡ false) × (u ≡ true → g ≡ false) × (u ≡ true → a ≡ false) × (d ≡ c))
  unfolding verdict
  verdict_iff true true w g c d = (λ h. cc, λ (x, y, z, e). absurd (cc (z refl)))
  verdict_iff true false true g c d = (λ h. cc, λ (x, y, z, e). cc)
  verdict_iff true false false true c d = (λ h. cc, λ (x, y, z, e). absurd (cc (y refl)))
  verdict_iff true false false false c d =
      (λ h. (refl, λ e. refl, λ e. refl, sym (inr_inj c d h)), λ (x, y, z, e). ap inr (sym e))
  verdict_iff false a true g c d = (λ h. cc, λ (x, y, z, e). cc)
  verdict_iff false a false g c d =
      (λ h. (refl, λ e. cc, λ e. cc, sym (inr_inj c d h)), λ (x, y, z, e). ap inr (sym e))

  may_run :
      (f : Flags F) (p : Probe)
      → same_ℤ f.window (pos 1) ≡ false
      → (f.use_roads ≡ true → same f.graph_id "" ≡ false)
      → (f.use_roads ≡ true → absent f p ≡ false)
      → MayRun f p
  may_run f p w g a = record {
    window = λ e. false-ne-true (sym w ∙ ap (λ (x : ℤ). same_ℤ x (pos 1)) e ∙ same_ℤ_self (pos 1));
    graph_named = λ u e. false-ne-true (sym (g u) ∙ (same_iff f.graph_id "").1 e);
    graph_served = λ u r. and-not (is_reached p) (served f.graph_id p).0 (a u) r;
  }

  tests_of :
      (f : Flags F) (p : Probe)
      → MayRun f p
      → (same_ℤ f.window (pos 1) ≡ false)
        × (f.use_roads ≡ true → same f.graph_id "" ≡ false)
        × (f.use_roads ≡ true → absent f p ≡ false)
  tests_of f p m = (
    Bool-false (λ e. m.window (same_ℤ→eq f.window (pos 1) e)),
    λ u. ne→same f.graph_id "" (m.graph_named u),
    λ u. and-not_of (is_reached p) (served f.graph_id p).0 (m.graph_served u),
  )

  -- The service starts a batcher exactly with flags and a last answer of the engine such that the window
  -- is not a single nanosecond, and for travel times a graph is named, which the engine serves if it
  -- answered. The batcher then runs with the configuration of the flags, the batcher's
  -- defaults filled in.
  pub launch_iff :
      (f : Flags F) (p : Probe) (d : Config F)
      → (launch fl f p ≡ inr d) ↔ (MayRun f p × (d ≡ apply_defaults fl (batcher_config fl f)))
  launch_iff f p d =
      let c = apply_defaults fl (batcher_config fl f) in
      let (to, from) =
        verdict_iff f.use_roads (absent f p) (same_ℤ f.window (pos 1)) (same f.graph_id "") c d in
      (
        λ h. let (w, g, a, e) = to (sym (launch-verdict f p) ∙ h) in (may_run f p w g a, e),
        λ (m, e). let (w, g, a) = tests_of f p m in launch-verdict f p ∙ from (w, g, a, e),
      )

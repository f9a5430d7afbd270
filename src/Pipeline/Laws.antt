-- ===== src/Pipeline/Laws.antt =====
-- The bounds and the counters of the pipeline's buffer, and what a flush does.
use ride_matching_engine.Common.{
  <>_cancel, ◌<>◌, ℕ, suc, ◌+◌, ◌≡◌, ◌≢◌, refl, sym, ap, ◌∙◌, ◌⊎◌, inl, inr, Bool, true, false,
  ◌&&◌, not, String, Option, none, some, List, [], ◌∷◌, pos, same, same→eq, same_self, ne→same,
  if◌then◌else◌, length, arith, Bool-cases,
}
use ride_matching_engine.Common.Int.{leb_ℤ, ◌≤ℤ◌, ◌<ℤ◌}
use ride_matching_engine.Common.Chars.{Lacks, split, split_nul}
use ride_matching_engine.Errors.{Error}
use ride_matching_engine.Floats.{Floats}
use ride_matching_engine.Time.{Time, Duration}
use ride_matching_engine.Locations.{DriverLocation}
use ride_matching_engine.Pipeline.{
  Config, Ping, Buffer, Pipeline, WindowStats, buf_key, look_up, put, is_some, Stores, Outside,
  location, accept, Groups, write_all, keep_last, finished, write_batch, flush, Event, pinged,
  flush_due, handle, run,
}

module _ {F : Type 0} where
  pub put_own : (k : String) (l : DriverLocation F) (b : Buffer F) → look_up k (put k l b) ≡ some l
  unfolding look_up put
  put_own k l [] = rw (same_self k) refl
  put_own k l ((j, m) ∷ b) = elim (Bool-cases (same j k)) [
    | inl e ↦ rw (e, e) refl
    | inr e ↦ rw (e, e) (put_own k l b)
  ]

  pub put_other :
      (k i : String) (l : DriverLocation F) (b : Buffer F)
      → i ≢ k
      → look_up i (put k l b) ≡ look_up i b
  unfolding look_up put
  put_other k i l [] h = rw (ne→same k i (λ e. h (sym e))) refl
  put_other k i l ((j, m) ∷ b) h = elim (Bool-cases (same j k)) [
    | inl e ↦ rw (e, other j (same→eq j k e)) refl
    | inr e ↦ elim (Bool-cases (same j i)) [
      | inl g ↦ rw (e, g) refl
      | inr g ↦ rw (e, g) (put_other k i l b h)
    ]
  ]
    where
      other : (j : String) → j ≡ k → same j i ≡ false
      other j q = ne→same j i (λ r. h (sym r ∙ q))

  pub length-put :
      (k : String) (l : DriverLocation F) (b : Buffer F)
      → length (put k l b) ≡ (if is_some (look_up k b) then length b else length b + 1)
  unfolding look_up put
  length-put k l [] = refl
  length-put k l ((j, m) ∷ b) = elim (Bool-cases (same j k)) [
    | inl e ↦ rw e refl
    | inr e ↦ ground (arith, length-put k l b)
  ]

-- Tenant ids without a NUL: a key tells its tenant and its driver.
buf_key_inj :
    (t u d e : String) → Lacks 0 t → Lacks 0 u → buf_key t d ≡ buf_key u e → (t ≡ u) × (d ≡ e)
unfolding buf_key
buf_key_inj t u d e clean clean' h =
    let tenants : t ≡ u =
      head_eq (sym (split_nul t d clean) ∙ ap (split 0) h ∙ split_nul u e clean') in
    let rest =
      <>_cancel t ("\0" <> d) ("\0" <> e)
        (h ∙ ap (λ (x : String). x <> ("\0" <> e)) (sym tenants)) in
    (tenants, <>_cancel "\0" d e rest)
  where
    head_eq : {x y : String} {xs ys : List String} → x ∷ xs ≡ y ∷ ys → x ≡ y
    head_eq k = ground (arith, k)

module _ (fl : Floats) (c : Config) where
  open fl use {F}

  is_full :
      (r : Option (DriverLocation F)) (b : Bool)
      → not (is_some r) && b ≡ true
      → (r ≡ none) × (b ≡ true)
  is_full none b h = (refl, h)
  is_full (some l) b h = cc

  has_room :
      (r : Option (DriverLocation F)) (b : Bool)
      → not (is_some r) && b ≡ false
      → r ≡ none
      → b ≡ true
      → ⊥
  has_room none b h e k = cc
  has_room (some l) b h e k = cc

  -- One ping, by its key.
  accept_key_lem :
      (now : Time) (p : Ping F) (s : Pipeline F)
      → let k = buf_key p.tenant_id p.driver_id in
        let r = accept fl c now p s in
        ((look_up k s.buffer ≡ none)
          × (c.max_buffered_drivers ≤ℤ pos (length s.buffer))
          × (r.buffer ≡ s.buffer)
          × (r.shed ≡ s.shed + 1)
          × (r.pings ≡ s.pings))
        ⊎ ((look_up k r.buffer ≡ some (location fl now p))
            × ¬ ((look_up k s.buffer ≡ none) × (c.max_buffered_drivers ≤ℤ pos (length s.buffer)))
            × ((i : String) → i ≢ k → look_up i r.buffer ≡ look_up i s.buffer)
            × (r.shed ≡ s.shed)
            × (r.pings ≡ s.pings + 1))
  unfolding accept
  accept_key_lem now p s =
      let k = buf_key p.tenant_id p.driver_id in
      elim (Bool-cases (
        not (is_some (look_up k s.buffer))
        && leb_ℤ c.max_buffered_drivers (pos (length s.buffer)))) [
          | inl full ↦
              let (new, over) = is_full (look_up k s.buffer) _ full in
              rw full (inl (new, ground (arith, over), refl, refl, refl))
          | inr room ↦ rw room (
              inr (
                put_own k (location fl now p) s.buffer,
                λ (new, over). has_room (look_up k s.buffer) _ room new (ground (arith, over)),
                λ i h. put_other k i (location fl now p) s.buffer h,
                refl,
                refl,
              ))
        ]

  -- For a tenant id without a NUL, as the separator of a key is one. `Accept` sheds a ping exactly if
  -- its driver is not buffered for its tenant and the buffer is full; a shed ping leaves the buffer as
  -- it was. One that is taken replaces what was buffered for its driver under its tenant, with the
  -- server's clock, and leaves what is buffered for every other tenant or driver, so also for a driver
  -- of the same id of another tenant, where that tenant's id has no NUL either.
  pub accept_lem :
      (now : Time) (p : Ping F) (s : Pipeline F)
      → Lacks 0 p.tenant_id
      → let b = s.buffer in
        let r = accept fl c now p s in
        ((look_up (buf_key p.tenant_id p.driver_id) b ≡ none)
          × (c.max_buffered_drivers ≤ℤ pos (length b))
          × (r.buffer ≡ b)
          × (r.shed ≡ s.shed + 1)
          × (r.pings ≡ s.pings))
        ⊎ ((look_up (buf_key p.tenant_id p.driver_id) r.buffer ≡ some (location fl now p))
            × ¬ (
                (look_up (buf_key p.tenant_id p.driver_id) b ≡ none)
                × (c.max_buffered_drivers ≤ℤ pos (length b)))
            × ((tenant driver : String)
                → Lacks 0 tenant
                → ¬ ((tenant ≡ p.tenant_id) × (driver ≡ p.driver_id))
                → look_up (buf_key tenant driver) r.buffer ≡ look_up (buf_key tenant driver) b)
            × (r.shed ≡ s.shed)
            × (r.pings ≡ s.pings + 1))
  accept_lem now p s clean = elim (accept_key_lem now p s) [
    | inl h ↦ inl h
    | inr (own, room, others, shed, pings) ↦ inr (
      own,
      room,
      λ tenant driver k ne.
          others (buf_key tenant driver)
            (λ e. ne (buf_key_inj tenant p.tenant_id driver p.driver_id k clean e)),
      shed,
      pings,
    )
  ]

  abbrev pub IsBounded : Pipeline F → Type 0
  IsBounded s = pos (length s.buffer) ≤ℤ c.max_buffered_drivers

  accept-IsBounded :
      (now : Time) (p : Ping F) (s : Pipeline F) → IsBounded s → IsBounded (accept fl c now p s)
  unfolding accept
  accept-IsBounded now p s h =
      let k = buf_key p.tenant_id p.driver_id in
      ground (arith, length-put k (location fl now p) s.buffer)

module _ {F : Type 0} (stores : Stores F) where
  open stores use {State, upsert_many}

  -- Every group handed to its store, whatever the stores answer.
  abbrev pub written : Groups F → State → State
  written [] w = w
  written ((t, ls) ∷ gs) w = written gs (upsert_many t ls w).1

  -- Every store takes its group.
  abbrev pub AllTaken : Groups F → State → Type 0
  AllTaken [] w = Unit
  AllTaken ((t, ls) ∷ gs) w = ((upsert_many t ls w).0 ≡ none) × AllTaken gs (upsert_many t ls w).1

  write_all-written :
      (gs : Groups F) (e : Option Error) (w : State) → (write_all stores gs e w).1 ≡ written gs w
  unfolding write_all
  write_all-written [] e w = refl
  write_all-written ((t, ls) ∷ gs) e w = write_all-written gs _ (upsert_many t ls w).1

  keep_last-none : (e f : Option Error) → keep_last stores e f ≡ none → (e ≡ none) × (f ≡ none)
  keep_last-none e none h = (h, refl)
  keep_last-none e (some f) h = cc

  write_all_taken :
      (gs : Groups F) (e : Option Error) (w : State)
      → (write_all stores gs e w).0 ≡ none
      → (e ≡ none) × AllTaken gs w
  unfolding write_all
  write_all_taken [] e w h = (h, tt)
  write_all_taken ((t, ls) ∷ gs) e w h =
      let (k, taken) = write_all_taken gs _ (upsert_many t ls w).1 h in
      let (e', f) = keep_last-none e _ k in (e', (f, taken))

  -- The writes of a flush: each tenant's group is handed to its store, also behind a store that
  -- fails; and the flush reports no error only if every store took its group.
  pub write_all_lem :
      (gs : Groups F) (w : State)
      → ((write_all stores gs none w).1 ≡ written gs w)
        × ((write_all stores gs none w).0 ≡ none → AllTaken gs w)
  write_all_lem gs w = (write_all-written gs none w, λ h. (write_all_taken gs none w h).1)

  -- What a flush makes of the counters.
  abbrev pub Ended : ℕ → Pipeline F → WindowStats → Pipeline F → Type 0
  Ended n s st r =
      ((st.flush_error ≡ none)
        × (r.flushed ≡ s.flushed + n)
        × (r.flush_failures ≡ s.flush_failures))
      ⊎ ((st.flush_error ≢ none)
          × (r.flushed ≡ s.flushed)
          × (r.flush_failures ≡ s.flush_failures + 1))

  abbrev Swapped : Pipeline F → Pipeline F → Type 0
  Swapped s r =
      (r.buffer ≡ s.buffer) × (r.windows ≡ s.windows) × (r.pings ≡ s.pings) × (r.shed ≡ s.shed)

  finished_lem :
      (st : WindowStats) (n : ℕ) (s : Pipeline F) (took : Duration) (p : Option Error × State)
      → st.flush_error ≡ none
      → let r = finished stores st n s took p in Swapped s r.1 × Ended n s r.0 r.1
  unfolding finished
  finished_lem st n s took (some e, w) h = ((refl, refl, refl, refl), inr (λ k. cc, refl, refl))
  finished_lem st n s took (none, w) h = ((refl, refl, refl, refl), inl (h, refl, refl))

  write_batch_lem :
      (o : Outside F) (st : WindowStats) (b : Buffer F) (s : Pipeline F) (w : State)
      → st.flush_error ≡ none
      → let r = write_batch stores o st b s w in Swapped s r.1 × Ended (length b) s r.0 r.1
  unfolding write_batch
  write_batch_lem o st [] s w h = ((refl, refl, refl, refl), inl (h, omega arith, refl))
  write_batch_lem o st (x ∷ b) s w h = finished_lem st (length (x ∷ b)) s o.took _ h

  -- Whatever the stores answer, a flush empties the buffer and begins a new window. The drivers that
  -- were buffered count as flushed if the flush reports no error; otherwise the window is dropped,
  -- and counts as one failure.
  pub flush_lem :
      (o : Outside F) (s : Pipeline F) (w : State)
      → let r = flush stores o s w in
        (r.1.buffer ≡ [])
        × (r.1.windows ≡ s.windows + 1)
        × (r.1.pings ≡ s.pings)
        × (r.1.shed ≡ s.shed)
        × Ended (length s.buffer) s r.0 r.1
  unfolding flush
  flush_lem o s w = let ((b, n, p, d), e) = write_batch_lem o _ s.buffer _ w refl in (b, n, p, d, e)

module _ (fl : Floats) (stores : Stores fl.F) (c : Config) where
  open fl use {F}
  open stores use {State}

  abbrev pub ping_count : List (Event F) → ℕ
  ping_count [] = 0
  ping_count (pinged now p ∷ es) = suc (ping_count es)
  ping_count (flush_due o ∷ es) = ping_count es

  pub accept_counts :
      (now : Time) (p : Ping F) (s : Pipeline F)
      → (accept fl c now p s).pings + (accept fl c now p s).shed ≡ s.pings + s.shed + 1
  accept_counts now p s = elim (accept_key_lem fl c now p s) [
    | inl (_, _, _, d, p) ↦ omega (arith, d, p)
    | inr (_, _, _, d, p) ↦ omega (arith, d, p)
  ]

  -- From a buffer within a positive bound, over any order of pings and flushes and whatever the stores
  -- answer, the buffer stays within `MaxBufferedDrivers`, and each ping is counted once, as taken or as shed.
  pub run_within_room :
      (es : List (Event F)) (s : Pipeline F) (w : State)
      → pos 0 <ℤ c.max_buffered_drivers
      → IsBounded fl c s
      → let r = (run fl stores c es (s, w)).0 in
        IsBounded fl c r × (r.pings + r.shed ≡ s.pings + s.shed + ping_count es)
  unfolding run handle
  run_within_room [] s w some_room h = (h, omega arith)
  run_within_room (pinged now p ∷ es) s w some_room h =
      let (b, n) =
        run_within_room es (accept fl c now p s) w some_room (accept-IsBounded fl c now p s h) in
      (b, omega (arith, n, accept_counts now p s))
  run_within_room (flush_due o ∷ es) s w some_room h =
      let (empty, _, p, d, _) = flush_lem stores o s w in
      let r = flush stores o s w in
      let (b, n) =
        run_within_room es r.1 r.2 some_room
          (omega (arith, some_room, ap (length {A = String × DriverLocation F}) empty)) in
      (b, omega (arith, n, p, d))

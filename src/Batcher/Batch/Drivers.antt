-- ===== src/Batcher/Batch/Drivers.antt =====
-- The candidate drivers of a batch: `driverSet` of `processBatch`.
use ride_matching_engine.Common.{
  ◌≡◌, refl, sym, subst, ◌≢◌, ◌⊎◌, inl, inr, String, List, [], ◌∷◌, ap, Memᴰ, All, Bool-cases, same,
  same-false, same→eq, ◌∙◌,
}
use ride_matching_engine.Time.{Time}
use ride_matching_engine.Locations.{DriverLocation}
use ride_matching_engine.Queue.{Message}
use ride_matching_engine.Batcher.Config.{Config}
use ride_matching_engine.Batcher.Batch.{
  put_driver, put_all, put_lists, driver_set, MatchBatchRequest, match_request,
}

module _ {F : Type 0} where
  abbrev pub DistinctDrivers : List (DriverLocation F) → Type 0
  DistinctDrivers [] = Unit
  DistinctDrivers (d ∷ ds) = All (λ e. e.driver_id ≢ d.driver_id) ds × DistinctDrivers ds

  put_driver-All :
      (t : String) (d : DriverLocation F) (es : List (DriverLocation F))
      → d.driver_id ≢ t
      → All (λ e. e.driver_id ≢ t) es
      → All (λ e. e.driver_id ≢ t) (put_driver d es)
  unfolding put_driver
  put_driver-All t d [] h a = (h, tt)
  put_driver-All t d (e ∷ es) h a = elim (Bool-cases (same e.driver_id d.driver_id)) [
    | inl hit ↦ rw hit (h, a.1)
    | inr miss ↦ rw miss (a.0, put_driver-All t d es h a.1)
  ]

  put_driver-Distinct :
      (d : DriverLocation F) (es : List (DriverLocation F))
      → DistinctDrivers es
      → DistinctDrivers (put_driver d es)
  unfolding put_driver
  put_driver-Distinct d [] h = (tt, tt)
  put_driver-Distinct d (e ∷ es) h = elim (Bool-cases (same e.driver_id d.driver_id)) [
    | inl hit ↦ rw hit (subst (λ t. All (λ x. x.driver_id ≢ t) es) (same→eq _ _ hit) h.0, h.1)
    | inr miss ↦ rw miss (
      put_driver-All e.driver_id d es (λ k. same-false _ _ miss (sym k)) h.0,
      put_driver-Distinct d es h.1,
    )
  ]

  put_all-Distinct :
      (ds set : List (DriverLocation F)) → DistinctDrivers set → DistinctDrivers (put_all ds set)
  unfolding put_all
  put_all-Distinct [] set h = h
  put_all-Distinct (d ∷ ds) set h =
      put_all-Distinct ds (put_driver d set) (put_driver-Distinct d set h)

  put_lists-Distinct :
      (rs : List (List (DriverLocation F))) (set : List (DriverLocation F))
      → DistinctDrivers set
      → DistinctDrivers (put_lists rs set)
  unfolding put_lists
  put_lists-Distinct [] set h = h
  put_lists-Distinct (near ∷ rs) set h =
      put_lists-Distinct rs (put_all near set) (put_all-Distinct near set h)

  -- Some driver of the set has the id.
  abbrev pub HasDriver : String → List (DriverLocation F) → Type 0
  HasDriver i [] = ⊥
  HasDriver i (d ∷ ds) = (d.driver_id ≡ i) ⊎ HasDriver i ds

  put_driver_own :
      (d : DriverLocation F) (es : List (DriverLocation F))
      → HasDriver d.driver_id (put_driver d es)
  unfolding put_driver
  put_driver_own d [] = inl refl
  put_driver_own d (e ∷ es) = elim (Bool-cases (same e.driver_id d.driver_id)) [
    | inl hit ↦ rw hit (inl refl)
    | inr miss ↦ rw miss (inr (put_driver_own d es))
  ]

  put_driver_keeps :
      (i : String) (d : DriverLocation F) (es : List (DriverLocation F))
      → HasDriver i es
      → HasDriver i (put_driver d es)
  unfolding put_driver
  put_driver_keeps i d [] h = absurd h
  put_driver_keeps i d (e ∷ es) h = elim (Bool-cases (same e.driver_id d.driver_id)) [
    | inl hit ↦ rw hit (elim h [ inl k ↦ inl (sym (same→eq _ _ hit) ∙ k) | inr k ↦ inr k ])
    | inr miss ↦ rw miss (elim h [ inl k ↦ inl k | inr k ↦ inr (put_driver_keeps i d es k) ])
  ]

  put_all_keeps :
      (i : String) (ds set : List (DriverLocation F))
      → HasDriver i set ⊎ HasDriver i ds
      → HasDriver i (put_all ds set)
  unfolding put_all
  put_all_keeps i [] set (inl h) = h
  put_all_keeps i [] set (inr h) = absurd h
  put_all_keeps i (d ∷ ds) set (inl h) = put_all_keeps i ds _ (inl (put_driver_keeps i d set h))
  put_all_keeps i (d ∷ ds) set (inr (inl e)) =
      put_all_keeps i ds _
        (inl (subst (λ t. HasDriver t (put_driver d set)) e (put_driver_own d set)))
  put_all_keeps i (d ∷ ds) set (inr (inr h)) = put_all_keeps i ds _ (inr h)

  put_lists_keeps :
      (i : String) (rs : List (List (DriverLocation F))) (set : List (DriverLocation F))
      → HasDriver i set
      → HasDriver i (put_lists rs set)
  unfolding put_lists
  put_lists_keeps i [] set h = h
  put_lists_keeps i (near ∷ rs) set h =
      put_lists_keeps i rs (put_all near set) (put_all_keeps i near set (inl h))

  put_lists_found :
      (i : String) (near : List (DriverLocation F)) (rs : List (List (DriverLocation F)))
      (set : List (DriverLocation F))
      → Memᴰ near rs
      → HasDriver i near
      → HasDriver i (put_lists rs set)
  unfolding put_lists
  put_lists_found i near [] set m h = elim m [ ]
  put_lists_found i near (r ∷ rs) set (Memᴰ.head e) h =
      put_lists_keeps i rs _ (put_all_keeps i r set (inr (subst (HasDriver i) e h)))
  put_lists_found i near (r ∷ rs) set (Memᴰ.tail m) h = put_lists_found i near rs _ m h

  -- No driver is twice in the set, however many riders' shortlists it is on; and each driver of each
  -- shortlist is in it.
  pub driver_set_lem :
      (results : List (List (DriverLocation F)))
      → DistinctDrivers (driver_set results)
        × ((i : String) (near : List (DriverLocation F))
            → Memᴰ near results
            → HasDriver i near
            → HasDriver i (driver_set results))
  unfolding driver_set
  driver_set_lem results =
      (put_lists-Distinct results [] tt, λ i near m h. put_lists_found i near results [] m h)

  put_lists-empty :
      (rs : List (List (DriverLocation F))) (set : List (DriverLocation F))
      → All (λ near. near ≡ []) rs
      → put_lists rs set ≡ set
  unfolding put_lists put_all
  put_lists-empty [] set h = refl
  put_lists-empty (near ∷ rs) set (e, h) =
      put_lists-empty rs (put_all near set) h ∙ ap (λ l. put_all l set) e

  -- Riders without a driver in reach make an empty set.
  pub driver_set-empty :
      (results : List (List (DriverLocation F)))
      → All (λ near. near ≡ []) results
      → driver_set results ≡ []
  unfolding driver_set
  driver_set-empty results h = put_lists-empty results [] h

module _ {F : Type 0} (P : DriverLocation F → Type 0) where
  All-put_driver :
      (d : DriverLocation F) (es : List (DriverLocation F))
      → P d
      → All P es
      → All P (put_driver d es)
  unfolding put_driver
  All-put_driver d [] p h = (p, tt)
  All-put_driver d (e ∷ es) p h = elim (Bool-cases (same e.driver_id d.driver_id)) [
    | inl hit ↦ rw hit (p, h.1)
    | inr miss ↦ rw miss (h.0, All-put_driver d es p h.1)
  ]

  All-put_all : (ds set : List (DriverLocation F)) → All P ds → All P set → All P (put_all ds set)
  unfolding put_all
  All-put_all [] set h k = k
  All-put_all (d ∷ ds) set h k = All-put_all ds _ h.1 (All-put_driver d set h.0 k)

  All-put_lists :
      (rs : List (List (DriverLocation F))) (set : List (DriverLocation F))
      → All (All P) rs
      → All P set
      → All P (put_lists rs set)
  unfolding put_lists
  All-put_lists [] set h k = k
  All-put_lists (r ∷ rs) set h k = All-put_lists rs _ h.1 (All-put_all r set h.0 k)

  -- What holds of each driver of each shortlist holds of each driver of the set.
  pub All-driver_set :
      (rs : List (List (DriverLocation F))) → All (All P) rs → All P (driver_set rs)
  unfolding driver_set
  All-driver_set rs h = All-put_lists rs [] h tt

module _ {F : Type 0} where
  -- The candidates of an engine's batch are drivers with this property.
  abbrev pub Offered : (String → Type 0) → MatchBatchRequest F → Type 0
  Offered Q r = All (λ p. Q p.id) r.candidate_drivers

  pub match_request-Offered :
      (Q : String → Type 0) (c : Config F) (started : Time) (ms : List (Message F))
      (ds : List (DriverLocation F))
      → ((d : DriverLocation F) → Memᴰ d ds → Q d.driver_id)
      → Offered Q (match_request c started ms ds)
  unfolding match_request
  match_request-Offered Q c started ms [] h = tt
  match_request-Offered Q c started ms (d ∷ ds) h =
      (h d (Memᴰ.head refl), match_request-Offered Q c started ms ds (λ e m. h e (Memᴰ.tail m)))

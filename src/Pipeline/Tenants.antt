-- ===== src/Pipeline/Tenants.antt =====
-- The grouping of a flush by tenant.
use ride_matching_engine.Common.{
  ℕ, ◌+◌, ◌≡◌, ◌≢◌, refl, sym, ◌⊎◌, inl, inr, String, List, [], ◌∷◌, ◌++◌, same, same→eq,
  same-false, length, length-append, arith, Bool-cases, All, All-append, Memᴰ,
}
use ride_matching_engine.Locations.{DriverLocation}
use ride_matching_engine.Pipeline.{Groups, add_to, add_all, by_tenant}

module _ {F : Type 0} where
  -- Only a tenant's own locations are in its group.
  abbrev pub IsOwn : String × List (DriverLocation F) → Type 0
  IsOwn g = All (λ l. l.tenant_id ≡ g.0) g.1

  -- A location's tenant has a group with the location in it.
  abbrev pub IsIn : DriverLocation F → Groups F → Type 0
  IsIn l [] = ⊥
  IsIn l ((t, ls) ∷ gs) = ((t ≡ l.tenant_id) × Memᴰ l ls) ⊎ IsIn l gs

  abbrev pub OneGroupEach : Groups F → Type 0
  OneGroupEach [] = Unit
  OneGroupEach ((t, ls) ∷ gs) = All (λ g. g.0 ≢ t) gs × OneGroupEach gs

  abbrev pub total : Groups F → ℕ
  total [] = 0
  total ((t, ls) ∷ gs) = length ls + total gs

  add_to-IsOwn : (l : DriverLocation F) (gs : Groups F) → All IsOwn gs → All IsOwn (add_to l gs)
  unfolding add_to
  add_to-IsOwn l [] h = ((refl, tt), tt)
  add_to-IsOwn l ((t, ls) ∷ gs) h = elim (Bool-cases (same t l.tenant_id)) [
    | inl e ↦
        rw e (
          All-append (λ x. x.tenant_id ≡ t) ls (l ∷ []) h.0 (sym (same→eq t l.tenant_id e), tt),
          h.1,
        )
    | inr e ↦ rw e (h.0, add_to-IsOwn l gs h.1)
  ]

  total-add_to : (l : DriverLocation F) (gs : Groups F) → total (add_to l gs) ≡ total gs + 1
  unfolding add_to
  total-add_to l [] = refl
  total-add_to l ((t, ls) ∷ gs) = elim (Bool-cases (same t l.tenant_id)) [
    | inl e ↦ rw e (omega (arith, length-append ls (l ∷ [])))
    | inr e ↦ rw e (omega (arith, total-add_to l gs))
  ]

  mem-last : (l : DriverLocation F) (ls : List (DriverLocation F)) → Memᴰ l (ls ++ l ∷ [])
  mem-last l [] = Memᴰ.head refl
  mem-last l (x ∷ ls) = Memᴰ.tail (mem-last l ls)

  mem-more :
      (l : DriverLocation F) (ls ms : List (DriverLocation F)) → Memᴰ l ls → Memᴰ l (ls ++ ms)
  mem-more l [] ms m = elim m [ ]
  mem-more l (x ∷ ls) ms (Memᴰ.head e) = Memᴰ.head e
  mem-more l (x ∷ ls) ms (Memᴰ.tail m) = Memᴰ.tail (mem-more l ls ms m)

  add_to_own : (l : DriverLocation F) (gs : Groups F) → IsIn l (add_to l gs)
  unfolding add_to
  add_to_own l [] = inl (refl, Memᴰ.head refl)
  add_to_own l ((t, ls) ∷ gs) = elim (Bool-cases (same t l.tenant_id)) [
    | inl e ↦ rw e (inl (same→eq t l.tenant_id e, mem-last l ls))
    | inr e ↦ rw e (inr (add_to_own l gs))
  ]

  add_to_keeps : (i l : DriverLocation F) (gs : Groups F) → IsIn i gs → IsIn i (add_to l gs)
  unfolding add_to
  add_to_keeps i l [] h = absurd h
  add_to_keeps i l ((t, ls) ∷ gs) h = elim (Bool-cases (same t l.tenant_id)) [
    | inl e ↦ rw e (elim h [ inl (q, m) ↦ inl (q, mem-more i ls (l ∷ []) m) | inr k ↦ inr k ])
    | inr e ↦ rw e (elim h [ inl k ↦ inl k | inr k ↦ inr (add_to_keeps i l gs k) ])
  ]

  add_to-All :
      (u : String) (l : DriverLocation F) (gs : Groups F)
      → l.tenant_id ≢ u
      → All (λ g. g.0 ≢ u) gs
      → All (λ g. g.0 ≢ u) (add_to l gs)
  unfolding add_to
  add_to-All u l [] n h = (n, tt)
  add_to-All u l ((t, ls) ∷ gs) n h = elim (Bool-cases (same t l.tenant_id)) [
    | inl e ↦ rw e h
    | inr e ↦ rw e (h.0, add_to-All u l gs n h.1)
  ]

  add_to-OneGroupEach :
      (l : DriverLocation F) (gs : Groups F) → OneGroupEach gs → OneGroupEach (add_to l gs)
  unfolding add_to
  add_to-OneGroupEach l [] h = (tt, tt)
  add_to-OneGroupEach l ((t, ls) ∷ gs) h = elim (Bool-cases (same t l.tenant_id)) [
    | inl e ↦ rw e h
    | inr e ↦ rw e (
      add_to-All t l gs (λ q. same-false t l.tenant_id e (sym q)) h.0,
      add_to-OneGroupEach l gs h.1,
    )
  ]

  abbrev Sound : Groups F → Type 0
  Sound gs = All IsOwn gs × OneGroupEach gs

  add_all-Sound : (ls : List (DriverLocation F)) (gs : Groups F) → Sound gs → Sound (add_all ls gs)
  unfolding add_all
  add_all-Sound [] gs h = h
  add_all-Sound (l ∷ ls) gs h =
      add_all-Sound ls (add_to l gs) (add_to-IsOwn l gs h.0, add_to-OneGroupEach l gs h.1)

  total-add_all :
      (ls : List (DriverLocation F)) (gs : Groups F) → total (add_all ls gs) ≡ total gs + length ls
  unfolding add_all
  total-add_all [] gs = omega arith
  total-add_all (l ∷ ls) gs = omega (arith, total-add_all ls (add_to l gs), total-add_to l gs)

  add_all_holds :
      (i : DriverLocation F) (ls : List (DriverLocation F)) (gs : Groups F)
      → IsIn i gs ⊎ Memᴰ i ls
      → IsIn i (add_all ls gs)
  unfolding add_all
  add_all_holds i [] gs (inl h) = h
  add_all_holds i [] gs (inr m) = elim m [ ]
  add_all_holds i (l ∷ ls) gs (inl h) =
      add_all_holds i ls (add_to l gs) (inl (add_to_keeps i l gs h))
  add_all_holds i (l ∷ ls) gs (inr (Memᴰ.head e)) =
      add_all_holds i ls (add_to l gs) (inl (rw e (add_to_own l gs)))
  add_all_holds i (l ∷ ls) gs (inr (Memᴰ.tail m)) = add_all_holds i ls (add_to l gs) (inr m)

  -- The groups of a flush keep the tenants apart: a tenant has one group, and only its own locations
  -- are in it. Each location of the batch is in its tenant's group, and the groups together have as
  -- many locations as the batch.
  pub by_tenant_lem :
      (batch : List (DriverLocation F))
      → All IsOwn (by_tenant batch)
        × OneGroupEach (by_tenant batch)
        × ((l : DriverLocation F) → Memᴰ l batch → IsIn l (by_tenant batch))
        × (total (by_tenant batch) ≡ length batch)
  unfolding by_tenant
  by_tenant_lem batch =
      let (own, each) = add_all-Sound batch [] (tt, tt) in
      (own, each, λ l m. add_all_holds l batch [] (inr m), omega (arith, total-add_all batch []))

-- ===== src/Locations/Redis/Union.antt =====
-- The union of the candidates of a pipelined search.
use ride_matching_engine.Common.{
  ◌≡◌, refl, sym, subst, inl, inr, true, false, String, List, [], ◌∷◌, ◌++◌, same, same_self,
  Bool-cases, All,
}
use ride_matching_engine.Locations.Redis.{Place, is_in, add_names, union}

is_in-append : (k : String) (ms ns : List String) → is_in k ms ≡ true → is_in k (ms ++ ns) ≡ true
is_in-append k [] ns h = cc
is_in-append k (j ∷ ms) ns h = elim (Bool-cases (same j k)) [
  | inl e ↦ rw e refl
  | inr e ↦ rw e (is_in-append k ms ns (rw e at h))
]

is_in-snoc : (k : String) (ms : List String) → is_in k (ms ++ k ∷ []) ≡ true
is_in-snoc k [] = rw (same_self k) refl
is_in-snoc k (j ∷ ms) = elim (Bool-cases (same j k)) [
  | inl e ↦ rw e refl
  | inr e ↦ rw e (is_in-snoc k ms)
]

module _ {F : Type 0} where
  add_names_keeps :
      (k : String) (ps : List (Place F)) (ms : List String)
      → is_in k ms ≡ true
      → is_in k (add_names ps ms) ≡ true
  unfolding add_names
  add_names_keeps k [] ms h = h
  add_names_keeps k (p ∷ ps) ms h = elim (Bool-cases (is_in p.name ms)) [
    | inl e ↦ rw e (add_names_keeps k ps ms h)
    | inr e ↦ rw e (add_names_keeps k ps _ (is_in-append k ms _ h))
  ]

  union_keeps :
      (k : String) (raw : List (List (Place F))) (ms : List String)
      → is_in k ms ≡ true
      → is_in k (union raw ms) ≡ true
  unfolding union
  union_keeps k [] ms h = h
  union_keeps k (ps ∷ raw) ms h = union_keeps k raw _ (add_names_keeps k ps ms h)

  -- All the places' names are among the members.
  abbrev pub IsCovered : List String → List (Place F) → Type 0
  IsCovered ms ps = All (λ p. is_in p.name ms ≡ true) ps

  add_known :
      (p : Place F) (ps : List (Place F)) (ms : List String)
      → is_in p.name ms ≡ true
      → add_names (p ∷ ps) ms ≡ add_names ps ms
  unfolding add_names
  add_known p ps ms e = rw e refl

  add_unknown :
      (p : Place F) (ps : List (Place F)) (ms : List String)
      → is_in p.name ms ≡ false
      → add_names (p ∷ ps) ms ≡ add_names ps (ms ++ p.name ∷ [])
  unfolding add_names
  add_unknown p ps ms e = rw e refl

  add_names_covers :
      (ps : List (Place F)) (ms : List String) (raw : List (List (Place F)))
      → IsCovered (union raw (add_names ps ms)) ps
  add_names_covers [] ms raw = tt
  add_names_covers (p ∷ ps) ms raw = elim (Bool-cases (is_in p.name ms)) [
    | inl e ↦
        subst (λ ns. IsCovered (union raw ns) (p ∷ ps)) (sym (add_known p ps ms e))
          (union_keeps p.name raw _ (add_names_keeps p.name ps ms e), add_names_covers ps ms raw)
    | inr e ↦
        subst (λ ns. IsCovered (union raw ns) (p ∷ ps)) (sym (add_unknown p ps ms e))
          (
            union_keeps p.name raw _ (add_names_keeps p.name ps _ (is_in-snoc p.name ms)),
            add_names_covers ps _ raw,
          )
  ]

  pub union_covers :
      (raw : List (List (Place F))) (ms : List String) → All (IsCovered (union raw ms)) raw
  unfolding union
  union_covers [] ms = tt
  union_covers (ps ∷ raw) ms = (add_names_covers ps ms raw, union_covers raw (add_names ps ms))

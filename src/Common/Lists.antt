-- ===== src/Common/Lists.antt =====
-- Lists measured by native numbers, and predicates on them.
use Prim.Native.Nat.{ℕ, zero, suc, ◌+◌}
use mathlib.Core.Path.{◌≡◌, refl}
use mathlib.Core.List.{List, [], ◌∷◌, ◌++◌, map, Memᴰ}
use mathlib.Core.Logic.{◌⊎◌, inl, inr}
use mathlib.Core.Option.{Option, none, some}
use native.Mathlib.Omega.{arith}

module _ {ℓ} {A : Type ℓ} where
  abbrev pub length : List A → ℕ
  length [] = 0
  length (x ∷ xs) = suc (length xs)

  abbrev pub get_elem? : List A → ℕ → Option A
  get_elem? [] i = none
  get_elem? (x ∷ xs) zero = some x
  get_elem? (x ∷ xs) (suc i) = get_elem? xs i

  pub length-append : (xs ys : List A) → length (xs ++ ys) ≡ length xs + length ys
  length-append [] ys = omega arith
  length-append (x ∷ xs) ys = omega (arith, length-append xs ys)

  -- Every element satisfies `P`.
  abbrev pub All {κ} : (A → Type κ) → List A → Type κ
  All P [] = Unit
  All P (x ∷ xs) = P x × All P xs

  pub All-append {κ} : (P : A → Type κ) (xs ys : List A) → All P xs → All P ys → All P (xs ++ ys)
  All-append P [] ys hx hy = hy
  All-append P (x ∷ xs) ys hx hy = (hx.0, All-append P xs ys hx.1 hy)

  pub All-map {κ μ} :
      {P : A → Type κ} {Q : A → Type μ} (f : (x : A) → P x → Q x) (xs : List A)
      → All P xs
      → All Q xs
  All-map f [] h = tt
  All-map f (x ∷ xs) h = (f x h.0, All-map f xs h.1)

  pub All-mem {κ} : {x : A} (P : A → Type κ) {xs : List A} → All P xs → Memᴰ x xs → P x
  All-mem P h (Memᴰ.head e) = rw e h.0
  All-mem P h (Memᴰ.tail m) = All-mem P h.1 m

module _ {ℓ κ} {A : Type ℓ} {B : Type κ} (f : A → B) where
  pub length-map : (xs : List A) → length (map f xs) ≡ length xs
  length-map [] = refl
  length-map (x ∷ xs) = omega (arith, length-map xs)

module _ {ℓ} {A : Type ℓ} where
  pub mem-snoc : {a : A} (b : A) (xs : List A) → Memᴰ a (xs ++ b ∷ []) → Memᴰ a xs ⊎ (a ≡ b)
  mem-snoc b [] (Memᴰ.head e) = inr e
  mem-snoc b [] (Memᴰ.tail m) = elim m [ ]
  mem-snoc b (x ∷ xs) (Memᴰ.head e) = inl (Memᴰ.head e)
  mem-snoc b (x ∷ xs) (Memᴰ.tail m) = elim (mem-snoc b xs m) [
    | inl k ↦ inl (Memᴰ.tail k)
    | inr e ↦ inr e
  ]

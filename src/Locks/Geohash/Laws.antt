-- ===== src/Locks/Geohash/Laws.antt =====
-- The length and the prefixes of a geohash, and the range of a partition.
use ride_matching_engine.Common.{
  ℕ, zero, suc, ◌+◌, ◌*◌, ◌%◌, ◌<◌, ◌≤◌, ◌≡◌, refl, ap, ◌∙◌, inl, inr, List, [], ◌∷◌, ◌++◌, pos,
  arith, ℤ, negsuc, ltb, ◌==◌, ltb→lt, lt→ltb, length, length-append, All, All-append, Memᴰ,
  Bool-cases,
}
use mathlib.Core.List.{append_assoc, append-nil}
use ride_matching_engine.Floats.{Floats}
use ride_matching_engine.Locks.{Options}
use ride_matching_engine.Locks.Geohash.{
  alphabet, byte_at, Scan, narrow, emit, scan, start, geohash_of, geohash, partition_for,
}

byte_at-mem : (bs : List ℕ) (i : ℕ) → i < length bs → Memᴰ (byte_at bs i) bs
unfolding byte_at
byte_at-mem [] i h = absurd (omega arith)
byte_at-mem (b ∷ bs) zero h = Memᴰ.head refl
byte_at-mem (b ∷ bs) (suc i) h = Memᴰ.tail (byte_at-mem bs i (omega arith))

-- How many values a byte's first bits have.
abbrev width : ℕ → ℕ
width zero = 1
width (suc n) = width n + width n

width_4 : (n : ℕ) → n + 1 ≡ 5 → width n ≡ 16
width_4 n h = let e : n ≡ 4 = omega arith in rw e refl

module _ (fl : Floats) (halfway : fl.F → fl.F → fl.F) where
  open fl use {F}

  -- A byte has fewer than five bits yet, and the bytes written are letters of the alphabet.
  pub record IsScanned (s : Scan F) : Type 0 where
    pub partial : s.bit < 5
    pub small : s.ch < width s.bit
    pub letters : All (λ b. Memᴰ b alphabet) s.out

  -- What one bit changes.
  narrow_lem :
      (lat lng : F) (s : Scan F)
      → ((narrow fl halfway lat lng s).bit ≡ s.bit)
        × ((narrow fl halfway lat lng s).out ≡ s.out)
        × ((narrow fl halfway lat lng s).ch ≤ s.ch + s.ch + 1)
  unfolding narrow
  narrow_lem lat lng s = ground arith

  emit_lem :
      (s : Scan F)
      → s.bit < 5
      → s.ch < width s.bit + width s.bit
      → All (λ b. Memᴰ b alphabet) s.out
      → IsScanned (emit fl halfway s)
        × (5 * length (emit fl halfway s).out + (emit fl halfway s).bit
            ≡ 5 * length s.out + s.bit + 1)
        × (rest : List ℕ) × ((emit fl halfway s).out ≡ s.out ++ rest)
  unfolding emit
  emit_lem s within small letters = elim (Bool-cases (s.bit + 1 == 5)) [
    | inl e ↦
        let last : s.bit + 1 ≡ 5 = ground arith in
        let w = width_4 s.bit last in
        rw e (
          record {
            partial = omega arith;
            small = omega arith;
            letters =
                All-append (λ b. Memᴰ b alphabet) s.out _ letters
                  (byte_at-mem alphabet s.ch (omega arith), tt);
          },
          omega (arith, length-append s.out (byte_at alphabet s.ch ∷ [])),
          byte_at alphabet s.ch ∷ [],
          refl,
        )
    | inr e ↦ rw e (
      record {
        partial = ground arith;
        small = let e' : s.bit + 1 ≡ suc s.bit = omega arith in rw e' small;
        letters = letters;
      },
      omega arith,
      [],
      rw append-nil refl,
    )
  ]

  -- One turn of the loop.
  turn_lem :
      (lat lng : F) (s : Scan F)
      → IsScanned s
      → IsScanned (emit fl halfway (narrow fl halfway lat lng s))
        × (5 * length (emit fl halfway (narrow fl halfway lat lng s)).out
              + (emit fl halfway (narrow fl halfway lat lng s)).bit
            ≡ 5 * length s.out + s.bit + 1)
        × (rest : List ℕ) × ((emit fl halfway (narrow fl halfway lat lng s)).out ≡ s.out ++ rest)
  turn_lem lat lng s ok =
      let (b, o, c) = narrow_lem lat lng s in
      let (good, grown, rest, e) =
        emit_lem (narrow fl halfway lat lng s) (rw b ok.partial)
          (rw b (let k = ok.small in omega arith)) (rw o ok.letters) in
      (good, grown ∙ rw (b, o) refl, rest, e ∙ rw o refl)

  -- With five turns for a byte the loop ends at its test.
  scan_ends :
      (fuel precision : ℕ) (lat lng : F) (s : Scan F)
      → IsScanned s
      → length s.out ≤ precision
      → 5 * precision ≤ fuel + s.bit + 5 * length s.out
      → IsScanned (scan fl halfway fuel precision lat lng s)
        × (length (scan fl halfway fuel precision lat lng s).out ≡ precision)
  unfolding scan
  scan_ends zero precision lat lng s ok below enough = let h = ok.partial in (ok, omega arith)
  scan_ends (suc fuel) precision lat lng s ok below enough =
      elim (Bool-cases (ltb (length s.out) precision)) [
        | inr done ↦ rw done (ok, ground arith)
        | inl more ↦
            let (good, grown, rest, e) = turn_lem lat lng s ok in
            let h = good.partial in
            let lt = ltb→lt _ _ more in
            rw more (scan_ends fuel precision lat lng _ good (omega arith) (omega arith))
      ]

  scan_grows :
      (fuel precision : ℕ) (lat lng : F) (s : Scan F)
      → IsScanned s
      → (rest : List ℕ) × ((scan fl halfway fuel precision lat lng s).out ≡ s.out ++ rest)
  unfolding scan
  scan_grows zero precision lat lng s ok = ([], rw append-nil refl)
  scan_grows (suc fuel) precision lat lng s ok = elim (Bool-cases (ltb (length s.out) precision)) [
    | inr done ↦ rw done ([], rw append-nil refl)
    | inl more ↦
        let (good, grown, first, e) = turn_lem lat lng s ok in
        let (rest, f) = scan_grows fuel precision lat lng _ good in
        rw more
          (first ++ rest, f ∙ ap (λ (xs : List ℕ). xs ++ rest) e ∙ append_assoc s.out first rest)
  ]

  -- The loop for a greater precision goes on where that for a smaller one ends.
  scan_resumes :
      (f g p q : ℕ) (lat lng : F) (s : Scan F)
      → f ≤ g
      → p ≤ q
      → (left : ℕ) × (scan fl halfway g q lat lng s
          ≡ scan fl halfway left q lat lng (scan fl halfway f p lat lng s))
  unfolding scan
  scan_resumes zero g p q lat lng s le finer = (g, refl)
  scan_resumes (suc f) zero p q lat lng s le finer = absurd (omega arith)
  scan_resumes (suc f) (suc g) p q lat lng s le finer = elim (Bool-cases (ltb (length s.out) p)) [
    | inr done ↦ (suc g, rw done refl)
    | inl more ↦
        let (left, e) =
          scan_resumes f g p q lat lng (emit fl halfway (narrow fl halfway lat lng s)) (omega arith)
            finer in
        let lt = ltb→lt _ _ more in (left, rw (more, lt→ltb (length s.out) q (omega arith)) e)
  ]

  start-IsScanned : IsScanned (start fl halfway)
  unfolding start
  start-IsScanned = record { partial = omega arith; small = omega arith; letters = tt }

  start_empty : (start fl halfway).out ≡ []
  unfolding start
  start_empty = refl

  geohash_of_lem :
      (lat lng : F) (p : ℕ)
      → All (λ b. Memᴰ b alphabet) (geohash_of fl halfway lat lng p)
        × (length (geohash_of fl halfway lat lng p) ≡ p)
  unfolding geohash_of
  geohash_of_lem lat lng p =
      let (good, e) =
        scan_ends (5 * p) p lat lng (start fl halfway) start-IsScanned
          (rw start_empty (omega arith)) (rw start_empty (omega arith)) in
      (good.letters, e)

  geohash_of_refines :
      (lat lng : F) (p q : ℕ)
      → p ≤ q
      → (rest : List ℕ) × (geohash_of fl halfway lat lng q
          ≡ geohash_of fl halfway lat lng p ++ rest)
  unfolding geohash_of
  geohash_of_refines lat lng p q finer =
      let (left, e) =
        scan_resumes (5 * p) (5 * q) p q lat lng (start fl halfway) (omega arith) finer in
      let (good, n) =
        scan_ends (5 * p) p lat lng (start fl halfway) start-IsScanned
          (rw start_empty (omega arith)) (rw start_empty (omega arith)) in
      let (rest, f) = scan_grows left q lat lng _ good in (rest, ap (λ (s : Scan F). s.out) e ∙ f)

  -- The precision that `Geohash` works with.
  abbrev pub precision_of : ℤ → ℕ
  precision_of (pos zero) = 6
  precision_of (pos (suc n)) = suc n
  precision_of (negsuc n) = 6

  geohash-geohash_of :
      (lat lng : F) (p : ℤ)
      → geohash fl halfway lat lng p ≡ geohash_of fl halfway lat lng (precision_of p)
  unfolding geohash
  geohash-geohash_of lat lng (pos zero) = refl
  geohash-geohash_of lat lng (pos (suc n)) = refl
  geohash-geohash_of lat lng (negsuc n) = refl

  -- `Geohash` writes as many letters of its alphabet as the precision asks for, six where it is not
  -- positive; a hash of greater precision begins with that of a smaller one at the same place.
  pub geohash_refines :
      (lat lng : F) (p q : ℤ)
      → precision_of p ≤ precision_of q
      → All (λ b. Memᴰ b alphabet) (geohash fl halfway lat lng p)
        × (length (geohash fl halfway lat lng p) ≡ precision_of p)
        × (rest : List ℕ) × (geohash fl halfway lat lng q ≡ geohash fl halfway lat lng p ++ rest)
  geohash_refines lat lng p q finer =
      let (letters, n) = geohash_of_lem lat lng (precision_of p) in
      let (rest, e) = geohash_of_refines lat lng (precision_of p) (precision_of q) finer in
      rw (geohash-geohash_of lat lng p, geohash-geohash_of lat lng q) (letters, n, rest, e)

  -- With partitions that fit 32 bits, `PartitionFor` picks one of them.
  partition_for_lt :
      (o : Options) (n : ℕ) (lat lng : F)
      → o.partitions ≡ pos n
      → 0 < n
      → n < 4294967296
      → partition_for fl halfway o lat lng < n
  unfolding partition_for
  partition_for_lt o n lat lng e some_shard fits =
      let k : n % 4294967296 ≡ n = omega arith in rw (e, k) (grind arith)

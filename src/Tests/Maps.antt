-- ===== src/Tests/Maps.antt =====
-- The geohash of a place, with whole numbers for floats.
use ride_matching_engine.Common.{
  ℕ, ◌≡◌, refl, List, [], ◌∷◌, ◌++◌, ℤ, pos, All, Memᴰ, length, arith,
}
use ride_matching_engine.Common.Int.{◌+ℤ◌}
use ride_matching_engine.Cmd.Ingestd.{half}
use ride_matching_engine.Locks.Geohash.{
  alphabet, geohash, geohash_of, scan, start, narrow, emit, byte_at,
}
use ride_matching_engine.Locks.Geohash.Laws.{geohash_refines}
use ride_matching_engine.Tests.Numbers.{whole}

abbrev middle : ℤ → ℤ → ℤ
middle a b = half (a +ℤ b)

geohash_refines_example :
    All (λ b. Memᴰ b alphabet) (geohash whole middle (pos 12) (pos 77) (pos 2))
    × (length (geohash whole middle (pos 12) (pos 77) (pos 2)) ≡ 2)
    × (rest : List ℕ) × (geohash whole middle (pos 12) (pos 77) (pos 0)
        ≡ geohash whole middle (pos 12) (pos 77) (pos 2) ++ rest)
geohash_refines_example =
    geohash_refines whole middle (pos 12) (pos 77) (pos 2) (pos 0) (omega arith)

-- Bengaluru's geohash begins with "td".
bengaluru : geohash whole middle (pos 12) (pos 77) (pos 2) ≡ b't' ∷ b'd' ∷ []
unfolding geohash geohash_of scan start narrow emit byte_at half ◌+ℤ◌
bengaluru = refl

-- ===== src/Locks/Geohash.antt =====
-- The partition of the map that a coordinate falls in: `Geohash`, `PartitionFor` and `SpreadScore` of
-- infrastructure/internal/locks/lease.go. The midpoint of two floats and the quotient of two are
-- parameters. A hash is the list of its bytes.
use Prim.Native.Nat.{bit_xor}
use ride_matching_engine.Common.{
  ℕ, zero, suc, ◌+◌, ◌-◌, ◌*◌, ◌%◌, Bool, true, false, not, ◌&&◌, ◌||◌, List, [], ◌∷◌, ◌++◌, ℤ, pos,
  negsuc, ltb, ◌==◌, length, String, if◌then◌else◌,
}
use ride_matching_engine.Common.Int.{leb_ℤ}
use ride_matching_engine.Floats.{Floats}
use ride_matching_engine.Errors.{Fallible}
use ride_matching_engine.Locks.{Commands, Lease, Options}
use ride_matching_engine.Locks.Partitions.{acquire_partition}
pub mod Laws

-- `geohashAlphabet`.
abbrev pub alphabet : List ℕ
alphabet =
    b'0' ∷ b'1' ∷ b'2' ∷ b'3' ∷ b'4' ∷ b'5' ∷ b'6' ∷ b'7' ∷ b'8' ∷ b'9' ∷ b'b' ∷ b'c' ∷ b'd' ∷ b'e'
    ∷ b'f' ∷ b'g' ∷ b'h' ∷ b'j' ∷ b'k' ∷ b'm' ∷ b'n' ∷ b'p' ∷ b'q' ∷ b'r' ∷ b's' ∷ b't' ∷ b'u'
    ∷ b'v' ∷ b'w' ∷ b'x' ∷ b'y' ∷ b'z' ∷ []

-- `bytes[i]`; 0, which is no byte of the alphabet, stands for the panic out of range.
unfoldable pub byte_at : List ℕ → ℕ → ℕ
byte_at [] i = 0
byte_at (b ∷ bs) zero = b
byte_at (b ∷ bs) (suc i) = byte_at bs i

-- The local variables of the loop.
pub record Scan (F : Type 0) : Type 0 where
  pub lat_min : F
  pub lat_max : F
  pub lng_min : F
  pub lng_max : F
  pub even_bit : Bool
  pub bit : ℕ
  pub ch : ℕ
  pub out : List ℕ

module _ (fl : Floats) (halfway : fl.F → fl.F → fl.F) where
  open fl use {F, at_most, literal}

  -- `a > b`.
  abbrev pub above : F → F → Bool
  above a b = at_most b a && not (at_most a b)

  -- The next bit, of the longitude or of the latitude.
  unfoldable pub narrow : F → F → Scan F → Scan F
  narrow lat lng s =
      if s.even_bit
      then (let mid = halfway s.lng_min s.lng_max in
          if above lng mid
          then record s { ch = s.ch * 2 + 1; lng_min = mid }
          else record s { ch = s.ch * 2; lng_max = mid })
      else let mid = halfway s.lat_min s.lat_max in
        if above lat mid
        then record s { ch = s.ch * 2 + 1; lat_min = mid }
        else record s { ch = s.ch * 2; lat_max = mid }

  -- What follows the bit: the turn to the other coordinate, and each fifth time a byte.
  unfoldable pub emit : Scan F → Scan F
  emit s =
      if s.bit + 1 == 5
      then record s {
        even_bit = not s.even_bit;
        bit = 0;
        ch = 0;
        out = s.out ++ byte_at alphabet s.ch ∷ [];
      }
      else record s { even_bit = not s.even_bit; bit = s.bit + 1 }

  -- The loop `for out.Len() < precision`, with fuel.
  unfoldable pub scan : ℕ → ℕ → F → F → Scan F → Scan F
  scan zero precision lat lng s = s
  scan (suc fuel) precision lat lng s =
      let rest = scan fuel precision lat lng (emit (narrow lat lng s)) in
      if ltb (length s.out) precision then rest else s

  unfoldable pub start : Scan F
  start = record {
    lat_min = literal (negsuc 89);
    lat_max = literal (pos 90);
    lng_min = literal (negsuc 179);
    lng_max = literal (pos 180);
    even_bit = true;
    bit = 0;
    ch = 0;
    out = [];
  }

  unfoldable pub geohash_of : F → F → ℕ → List ℕ
  geohash_of lat lng precision = (scan (5 * precision) precision lat lng start).out

  -- `Geohash`.
  unfoldable pub geohash : F → F → ℤ → List ℕ
  geohash lat lng (pos zero) = geohash_of lat lng 6
  geohash lat lng (negsuc n) = geohash_of lat lng 6
  geohash lat lng (pos (suc n)) = geohash_of lat lng (suc n)

  -- FNV-1a in 32 bits.
  unfoldable pub fnv : ℕ → List ℕ → ℕ
  fnv h [] = h
  fnv h (b ∷ bs) = fnv (bit_xor h b * 16777619 % 4294967296) bs

  -- `uint32(m.opts.Partitions)`, for the positive number that `NewManager` leaves.
  abbrev pub shards : Options → ℕ
  shards o = elim o.partitions [ pos n ↦ n % 4294967296 | negsuc n ↦ 4294967295 - n % 4294967296 ]

  -- `PartitionFor`.
  unfoldable pub partition_for : Options → F → F → ℕ
  partition_for o lat lng = fnv 2166136261 (geohash lat lng (pos 5)) % shards o

  -- `seen[p] = true`.
  unfoldable pub mark : ℕ → List ℕ → List ℕ
  mark p [] = p ∷ []
  mark p (q ∷ seen) = let rest = mark p seen in if p == q then q ∷ seen else q ∷ rest

  unfoldable pub seen_of : Options → List (F × F) → List ℕ → List ℕ
  seen_of o [] seen = seen
  seen_of o ((lat, lng) ∷ places) seen = seen_of o places (mark (partition_for o lat lng) seen)

  -- `SpreadScore`; the minimum is taken of the whole numbers.
  pub spread_score : (F → F → F) → Options → List (F × F) → F
  spread_score divide o [] = literal (pos 0)
  spread_score divide o (c ∷ cs) =
      let most =
        if leb_ℤ (pos (length (c ∷ cs))) o.partitions
        then pos (length (c ∷ cs))
        else o.partitions in
      divide (literal (pos (length (seen_of o (c ∷ cs) [])))) (literal most)

  -- `AcquirePartition` at a coordinate.
  pub acquire_partition_at :
      (redis : Commands)
      → Options
      → F
      → F
      → Fallible String
      → redis.Server
      → Fallible Lease × redis.Server
  acquire_partition_at redis o lat lng token s =
      acquire_partition redis o (pos (partition_for o lat lng)) token s

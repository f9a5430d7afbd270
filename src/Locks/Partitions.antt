-- ===== src/Locks/Partitions.antt =====
-- Leases on a partition of the map: `AcquirePartition` and `ReleasePartition` of
-- infrastructure/internal/locks/lease.go, for a partition that `PartitionFor` computes.
use ride_matching_engine.Common.{◌≡◌, ◌≢◌, ◌∙◌, ap, Bool, true, String, ◌<>◌, Option, none, some, ℤ}
use ride_matching_engine.Common.Decimal.{itoa}
use ride_matching_engine.Errors.{Fallible, ok, err, plain}
use ride_matching_engine.Locks.{Commands, Lease, Options, claim, release_script, reply_is_one}
use ride_matching_engine.Locks.Views.{KeyLaws}
use ride_matching_engine.Locks.Laws.{granted_ok, eval_stale, eval_won, reply_one}

pub partition_key : Options → ℤ → String
partition_key o p = "lock:partition:" <> (o.tenant_id <> (":" <> itoa p))

-- The lease's driver id, which carries the partition.
unfoldable pub partition_name : ℤ → String
partition_name p = "__partition_" <> itoa p

module _ (redis : Commands) (o : Options) where
  open redis use {Server, eval}

  -- `AcquirePartition`, with the token drawn for it.
  unfoldable pub acquire_partition : ℤ → Fallible String → Server → Fallible Lease × Server
  acquire_partition p token s =
      claim redis o "locks: acquire partition: " (partition_key o p) (partition_name p) token s

  run_release : (String → String) → Lease → Option ℤ → Server → Fallible Bool × Server
  run_release quote l none s =
      (err (plain ("locks: " <> quote l.driver_id <> " is not a partition lease")), s)
  run_release quote l (some p) s =
      let (reply, s') = eval (release_script redis o (partition_key o p) l.token) s in
      (reply_is_one redis o "locks: release partition: " reply, s')

  -- `ReleasePartition`; `scan` is what `Sscanf` reads of the lease's driver id,
  -- and `quote` what `%q` prints of it.
  pub release_partition :
      (String → Option ℤ) → (String → String) → Lease → Server → Fallible Bool × Server
  release_partition scan quote l s = run_release quote l (scan l.driver_id) s

module _ (redis : Commands) (laws : KeyLaws redis) (o : Options) where
  open redis use {Server, read}

  -- A partition is granted only while no one holds it, and the lease is then its current one.
  claim_partition :
      (k name : String) (token : Fallible String) (s : Server) (l : Lease)
      → (claim redis o "locks: acquire partition: " k name token s).0 ≡ ok l
      → (l.driver_id ≡ name)
        × (read k s ≡ none)
        × (read k (claim redis o "locks: acquire partition: " k name token s).1 ≡ some l.token)
  unfolding claim
  claim_partition k name (err f) s l h = cc
  claim_partition k name (ok t) s l h =
      let (won, same_name, same_token) = granted_ok redis laws o _ name t _ l h in
      let (free, now) = laws.set_nx_won k t o.ttl s won in (same_name, free, rw same_token now)

  run_release_fenced :
      (quote : String → String) (l : Lease) (p : ℤ) (q : Option ℤ) (s : Server)
      → q ≡ some p
      → (read (partition_key o p) s ≢ some l.token → (run_release redis o quote l q s).1 ≡ s)
        × ((run_release redis o quote l q s).0 ≡ ok true
            → (read (partition_key o p) s ≡ some l.token)
              × (read (partition_key o p) (run_release redis o quote l q s).1 ≡ none))
  unfolding run_release release_script
  run_release_fenced quote l p q s e =
      let k = partition_key o p in
      let f = redis.del k in
      rw e (
        eval_stale redis laws o k l.token f s,
        λ h.
            let (now, ran) = eval_won redis laws o k l.token f s (reply_one redis laws o _ _ h) in
            (now, ap (read k) ran ∙ laws.del_own k s),
      )

  -- Where `Sscanf` reads the partition back from the lease's name: a lease that `AcquirePartition`
  -- grants is on a partition that no one held, and is then its current one. In any later state,
  -- `ReleasePartition` of that lease changes nothing unless it is still the current one, and frees
  -- the partition where it says so.
  pub acquire_partition_fenced :
      (scan : String → Option ℤ) (quote : String → String) (p : ℤ) (token : Fallible String)
      (s later : Server) (l : Lease)
      → scan (partition_name p) ≡ some p
      → (acquire_partition redis o p token s).0 ≡ ok l
      → (read (partition_key o p) s ≡ none)
        × (read (partition_key o p) (acquire_partition redis o p token s).1 ≡ some l.token)
        × (read (partition_key o p) later ≢ some l.token
            → (release_partition redis o scan quote l later).1 ≡ later)
        × ((release_partition redis o scan quote l later).0 ≡ ok true
            → read (partition_key o p) (release_partition redis o scan quote l later).1 ≡ none)
  unfolding acquire_partition release_partition
  acquire_partition_fenced scan quote p token s later l back h =
      let (named, free, now) = claim_partition (partition_key o p) (partition_name p) token s l h in
      let (stale, done) =
        run_release_fenced quote l p (scan l.driver_id) later (ap scan named ∙ back) in
      (free, now, stale, λ k. (done k).1)

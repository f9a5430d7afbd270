-- ===== src/Tests/Servers.antt =====
-- Redis Streams in memory: a server that carries out each command, and one that is out of memory and
-- so refuses XADD but not XACK.
use ride_matching_engine.Common.{
  ℕ, ◌≡◌, refl, Bool, true, false, ◌&&◌, String, none, List, [], ◌∷◌, Memᴰ, same, same_iff,
  same_self, arith, if◌then◌else◌, inl, inr, Bool-cases, sym,
}
use ride_matching_engine.Errors.{Error, Fallible, ok, err, plain}
use ride_matching_engine.Engine.{any_same}
use ride_matching_engine.Queue.Codec.{Fields, Entry}
use ride_matching_engine.Queue.Stream.{Commands}
use ride_matching_engine.Queue.Stream.Views.{StreamLaws}

-- The stored entries and those refused, the pending lists, and what a consumer finds.
pub record Memory : Type 0 where
  pub stored : List (String × Fields)
  pub refused : List (String × Fields)
  pub pending : String → String → String → Bool
  pub entries : List Entry
  pub counts : List (String × ℕ)

abbrev added : Bool → Fallible String
added true = err (plain "OOM command not allowed")
added false = ok "9-0"

abbrev store : Bool → String → Fields → Memory → Memory
store true k f s = record s { refused = (k, f) ∷ s.refused }
store false k f s = record s { stored = (k, f) ∷ s.stored }

abbrev keep : List String → String → List Entry → List Entry
keep ids i [] = []
keep ids i (e ∷ es) = if any_same e.id ids then e ∷ keep ids i es else keep ids i es

abbrev pub memory : Bool → Commands
memory full = record {
  Server = Memory;
  xadd = λ k cap f s. (added full, store full k f s);
  xack = λ k g ids s. (
    none,
    record s {
      pending = λ key group i.
          if same key k && (same group g && any_same i ids) then false else s.pending key group i;
    },
  );
  xread_group = λ k g c max block s. (ok s.entries, s);
  xpending = λ k g idle max s. (ok s.counts, s);
  xclaim = λ k g c idle ids s. (ok (keep ids "" s.entries), s);
}

not_listed : (i : String) (ids : List String) → ¬ Memᴰ i ids → any_same i ids ≡ false
unfolding any_same
not_listed i [] h = refl
not_listed i (x ∷ ids) h = elim (Bool-cases (same x i)) [
  | inl e ↦ absurd (h (Memᴰ.head (sym ((same_iff x i).0 e))))
  | inr e ↦ rw e (not_listed i ids (λ m. h (Memᴰ.tail m)))
]

listed : (i : String) (ids : List String) → Memᴰ i ids → any_same i ids ≡ true
unfolding any_same
listed i [] m = elim m [ ]
listed i (x ∷ ids) (Memᴰ.head e) = rw ((same_iff x i).1 (sym e))
listed i (x ∷ ids) (Memᴰ.tail m) = ground (arith, listed i ids m)

still :
    (full : Bool) (k g : String) (ids : List String) (s : Memory) (i : String)
    → ¬ Memᴰ i ids
    → s.pending k g i ≡ true
    → ((memory full).xack k g ids s).1.pending k g i ≡ true
still full k g ids s i h p = rw (not_listed i ids h, same_self k, same_self g) p

gone :
    (full : Bool) (k g : String) (ids : List String) (s : Memory) (i : String)
    → Memᴰ i ids
    → ¬ (((memory full).xack k g ids s).1.pending k g i ≡ true)
gone full k g ids s i m p = cc (rw (listed i ids m, same_self k, same_self g) at p)

pub memory-StreamLaws : (full : Bool) → StreamLaws (memory full)
memory-StreamLaws full = record {
  Pending = λ s k g i. s.pending k g i ≡ true;
  Unread = λ s k f. Memᴰ (k, f) s.stored;
  Stored = λ s k f. Memᴰ (k, f) s.stored;
  xadd-Pending = λ k cap f s key g i p. added-pending full k f s key g i p;
  Trimmed = λ s k f. ⊥;
  Refused = λ s k f. Memᴰ (k, f) s.refused;
  xadd-Unread = λ k cap f s key g m. inl (kept full k f s (key, g) m);
  xadd-Stored = λ k cap f s key g m. inl (kept full k f s (key, g) m);
  xadd-Trimmed = λ k cap f s key g m. m;
  xadd-Refused = λ k cap f s key g m. still_refused full k f s (key, g) m;
  xadd_failed = λ k cap f s e h. inl (newly_refused full k f s e h);
  xack-Trimmed = λ k g ids s key f m. m;
  xack-Refused = λ k g ids s key f m. m;
  xadd_done = λ k cap f s i e. (new full k f s i e, new full k f s i e);
  xack-Pending = still full;
  xack-Unread = λ k g ids s key f m. m;
  xack-Stored = λ k g ids s key f m. m;
  xack_done = λ k g ids s i e m. gone full k g ids s i m;
}
  where
    added-pending :
        (full : Bool) (k : String) (f : Fields) (s : Memory) (key g i : String)
        → s.pending key g i ≡ true
        → (store full k f s).pending key g i ≡ true
    added-pending true k f s key g i p = p
    added-pending false k f s key g i p = p

    kept :
        (full : Bool) (k : String) (f : Fields) (s : Memory) (x : String × Fields)
        → Memᴰ x s.stored
        → Memᴰ x (store full k f s).stored
    kept true k f s x m = m
    kept false k f s x m = Memᴰ.tail m

    still_refused :
        (full : Bool) (k : String) (f : Fields) (s : Memory) (x : String × Fields)
        → Memᴰ x s.refused
        → Memᴰ x (store full k f s).refused
    still_refused true k f s x m = Memᴰ.tail m
    still_refused false k f s x m = m

    newly_refused :
        (full : Bool) (k : String) (f : Fields) (s : Memory) (e : Error)
        → added full ≡ err e
        → Memᴰ (k, f) (store full k f s).refused
    newly_refused true k f s e h = Memᴰ.head refl
    newly_refused false k f s e h = cc

    new :
        (full : Bool) (k : String) (f : Fields) (s : Memory) (i : String)
        → added full ≡ ok i
        → Memᴰ (k, f) (store full k f s).stored
    new true k f s i e = cc
    new false k f s i e = Memᴰ.head refl

pub is_pending :
    (full : Bool) (s : Memory) (k g i : String)
    → s.pending k g i ≡ true
    → (memory-StreamLaws full).Pending s k g i
unfolding memory-StreamLaws
is_pending full s k g i h = h

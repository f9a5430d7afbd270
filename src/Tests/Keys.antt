-- ===== src/Tests/Keys.antt =====
-- Redis keys in memory.
use ride_matching_engine.Common.{
  ℕ, zero, suc, ◌≡◌, ◌≢◌, ◌⊎◌, inl, inr, refl, ◌<◌, Bool, true, false, String, Option, none, some,
  same, same_self, ne→same, arith, if◌then◌else◌,
}
use ride_matching_engine.Errors.{Fallible, ok}
use ride_matching_engine.Locks.{Commands}
use ride_matching_engine.Locks.Views.{KeyLaws}

abbrev pub Keys : Type 0
Keys = String → Option String

abbrev put : String → Option String → Keys → Keys
put k v s = λ j. if same j k then v else s j

abbrev set_nx : String → String → Option String → Keys → Fallible Bool × Keys
set_nx k v (some w) s = (ok false, s)
set_nx k v none s = (ok true, put k (some v) s)

abbrev count : Option String → ℕ
count none = 0
count (some v) = 1

abbrev pexpire : String → ℕ → Keys → ℕ × Keys
pexpire k zero s = (count (s k), put k none s)
pexpire k (suc ms) s = (count (s k), s)

abbrev pub keys : Commands
keys = record {
  Server = Keys;
  set_nx = λ k v t s. set_nx k v (s k) s;
  read = λ k s. s k;
  del = λ k s. (count (s k), put k none s);
  pexpire = pexpire;
  exists = λ k s. (ok (count (s k)), s);
  eval = λ f s. (ok (f s).0, (f s).1);
}

put_own : (k : String) (v : Option String) (s : Keys) → put k v s k ≡ v
put_own k v s = rw (same_self k) refl

put_other : (k : String) (v : Option String) (s : Keys) (j : String) → j ≢ k → put k v s j ≡ s j
put_other k v s j h = rw (ne→same j k h) refl

won :
    (k v : String) (r : Option String) (s : Keys)
    → s k ≡ r
    → (set_nx k v r s).0 ≡ ok true
    → (s k ≡ none) × ((set_nx k v r s).1 k ≡ some v)
won k v (some w) s e h = cc
won k v none s e h = (e, put_own k (some v) s)

other :
    (k v : String) (r : Option String) (s : Keys) (j : String) → j ≢ k → (set_nx k v r s).1 j ≡ s j
other k v (some w) s j h = refl
other k v none s j h = put_other k (some v) s j h

pexpired :
    (k : String) (ms : ℕ) (s : Keys) (j : String) → (j ≢ k) ⊎ (0 < ms) → (pexpire k ms s).1 j ≡ s j
pexpired k (suc ms) s j h = refl
pexpired k zero s j (inl h) = put_other k none s j h
pexpired k zero s j (inr h) = absurd (omega (arith, h))

pub keys-KeyLaws : KeyLaws keys
keys-KeyLaws = record {
  set_nx_won = λ k v t s h. won k v (s k) s refl h;
  set_nx_held = λ k v w t s h. rw (h, set_nx) h;
  set_nx_free = λ k v t s h e. cc (rw (h, set_nx) at e);
  set_nx_other = λ k v t s j h. other k v (s k) s j h;
  del_own = λ k s. put_own k none s;
  del_count = λ k v s h. rw (h, count) refl;
  del_other = λ k s j h. put_other k none s j h;
  pexpire_keeps = pexpired;
  pexpire_zero = λ k s. put_own k none s;
  eval_done = λ f s n h. (ground (arith, h), refl);
  eval_once = λ f s. inr refl;
}

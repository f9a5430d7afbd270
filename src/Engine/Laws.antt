-- ===== src/Engine/Laws.antt =====
-- The failure taxonomy of infrastructure/internal/engine: which failures are retried, and the
-- deadline of a call.
use ride_matching_engine.Common.{
  ◌≡◌, refl, sym, subst, inl, inr, ◌↔◌, true, false, Option, none, some, String, arith, ℤ, same,
  List, [], ◌∷◌, Memᴰ, same_iff, Bool-cases,
}
use ride_matching_engine.Common.Int.{◌≤ℤ◌, ◌+ℤ◌}
use ride_matching_engine.Errors.{Error}
use ride_matching_engine.Engine.{
  CallError, status, foreign, ok, unavailable, deadline_exceeded, invalid_argument,
  failed_precondition, resource_exhausted, canceled, other, classify, retryable, Context, earlier,
  with_timeout, Reply, answer, failed, solve_batch, has_graph, any_same, settle, served,
}

-- The failures after which the same batch is not sent again.
abbrev pub IsFinal : CallError → Type 0
IsFinal (status invalid_argument m) = Unit
IsFinal (status failed_precondition m) = Unit
IsFinal (status resource_exhausted m) = Unit
IsFinal (status canceled m) = Unit
IsFinal (status ok m) = Unit
IsFinal (status unavailable m) = ⊥
IsFinal (status deadline_exceeded m) = ⊥
IsFinal (status (other name) m) = ⊥
IsFinal (foreign m) = ⊥

-- The classified error of a failed call is not retryable exactly if the call's status is an invalid
-- argument, a failed precondition, an exhausted resource, a cancellation or OK; any other status, and
-- an error that is no status, is retryable.
pub retryable-classify_iff : (e : CallError) → (retryable (classify (some e)) ≡ false) ↔ IsFinal e
unfolding classify retryable
retryable-classify_iff (status invalid_argument m) = (λ _. tt, λ _. refl)
retryable-classify_iff (status failed_precondition m) = (λ _. tt, λ _. refl)
retryable-classify_iff (status resource_exhausted m) = (λ _. tt, λ _. refl)
retryable-classify_iff (status canceled m) = (λ _. tt, λ _. refl)
retryable-classify_iff (status ok m) = (λ _. tt, λ _. refl)
retryable-classify_iff (status unavailable m) = (λ e. cc, λ h. absurd h)
retryable-classify_iff (status deadline_exceeded m) = (λ e. cc, λ h. absurd h)
retryable-classify_iff (status (other name) m) = (λ e. cc, λ h. absurd h)
retryable-classify_iff (foreign m) = (λ e. cc, λ h. absurd h)

-- The instants that bound a context's deadline.
abbrev pub EndsBy : Context → ℤ → Type 0
EndsBy c t = (d : ℤ) × (c.deadline ≡ some d) × (d ≤ℤ t)

earlier-le : (c : Option ℤ) (t : ℤ) → earlier c t ≤ℤ t
earlier-le none t = omega arith
earlier-le (some d) t = ground arith

earlier-le-own : (d t : ℤ) → earlier (some d) t ≤ℤ d
earlier-le-own d t = ground arith

-- Whatever the stub answers is decided by one call under a deadline that is no later than the
-- client's timeout, and no later than the caller's own deadline.
pub solve_batch_bounded :
    {Request Response : Type 0} (api : Context → Request → Reply Response) (limit now : ℤ)
    (ctx : Context) (req : Request)
    → (c : Context) × (solve_batch api limit now ctx (some req) ≡ settle (api c req))
      × EndsBy c (now +ℤ limit)
      × ((t : ℤ) → ctx.deadline ≡ some t → EndsBy c t)
unfolding solve_batch
solve_batch_bounded api limit now ctx req = (
  with_timeout ctx now limit,
  refl,
  (d, refl, earlier-le ctx.deadline _),
  λ t e. (d, refl, rw e (earlier-le-own t _)),
)
  where
    d : ℤ
    d = earlier ctx.deadline (now +ℤ limit)

any_same-mem : (g : String) (gs : List String) → any_same g gs ≡ true → Memᴰ g gs
unfolding any_same
any_same-mem g [] h = cc
any_same-mem g (x ∷ gs) h = elim (Bool-cases (same x g)) [
  | inl e ↦ Memᴰ.head (sym ((same_iff x g).0 e))
  | inr e ↦ Memᴰ.tail (any_same-mem g gs (rw e at h))
]

mem-any_same : (g : String) (gs : List String) → Memᴰ g gs → any_same g gs ≡ true
unfolding any_same
mem-any_same g [] m = elim m [ ]
mem-any_same g (x ∷ gs) (Memᴰ.head e) = rw ((same_iff x g).1 (sym e))
mem-any_same g (x ∷ gs) (Memᴰ.tail m) = ground (arith, mem-any_same g gs m)

answer_inj : {gs hs : List String} → answer gs ≡ answer hs → gs ≡ hs
answer_inj e = ground arith

served-failed : (g : String) (o : Option Error) → (served g (none, o)).0 ≡ false
unfolding served
served-failed g none = refl
served-failed g (some e) = refl

served-settle_iff :
    (g : String) (r : Reply (List String))
    → ((served g (settle r)).0 ≡ true) ↔ ((gs : List String) × (r ≡ answer gs) × Memᴰ g gs)
unfolding served
served-settle_iff g (answer gs) = (
  λ h. (gs, refl, any_same-mem g gs h),
  λ (hs, e, m). mem-any_same g gs (subst (Memᴰ g) (sym (answer_inj e)) m),
)
served-settle_iff g (failed e) =
    (λ h. absurd (cc (served-failed g (classify (some e)))), λ (hs, k, m). cc)

-- `HasGraph` says yes exactly when the engine answers and serves the graph.
pub has_graph_iff :
    (api : Context → Reply (List String)) (limit now : ℤ) (ctx : Context) (graph : String)
    → ((has_graph api limit now ctx graph).0 ≡ true)
      ↔ ((gs : List String) × (api (with_timeout ctx now limit) ≡ answer gs) × Memᴰ graph gs)
unfolding has_graph
has_graph_iff api limit now ctx graph = served-settle_iff graph (api (with_timeout ctx now limit))

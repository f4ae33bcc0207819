-- ===== src/Provider/Chain/Keeps.antt =====
-- What requests, streams and probes keep of the chain's entries (internal/provider/chain.go).
use sclaw.Prelude.{
  ℕ, suc, ◌<◌, ◌≡◌, ◌≢◌, refl, sym, ap, ◌∙◌, Bool, true, false, ◌||◌, Option, none, some, List, [],
  ◌∷◌, All, All-modify, modify, arith, get_elem?, get_elem?-modify_ne, false≢true, if◌then◌else◌,
  ◌+◌,
}
use sclaw.Provider.Errors.{Error, is_retryable}
use sclaw.Provider.Health.{HealthTracker, record_success, record_failure}
use sclaw.Provider.Health.Backoff.{IsValid, record_success-IsValid, record_failure-IsValid}
use sclaw.Provider.Chain.{
  Role, TrackedEntry, Attempt, complete, stream, candidates, failover, over_candidates,
  entry_success, entry_failure, available_at, wrap_stream,
}
use sclaw.Provider.Chain.Failover.{
  serve, retry, verdict, seen, stopped, skipped, served, retried, failover-stop, failover_skip,
  failover_serve, failover_retry,
}

-- A predicate of the entries that the changes of one entry keep is kept by the loop.
module _ {P R : Type 0} (Q : TrackedEntry P → Type 0) (settle : TrackedEntry P → TrackedEntry P)
    (settle_keeps : (e : TrackedEntry P) → Q e → Q (settle e))
    (failure_keeps : (now : ℕ) (x : Error) (e : TrackedEntry P) → Q e → Q (entry_failure now x e))
    (world : ℕ → Attempt R) where
  All-failover :
      (is : List ℕ) (last : Option Error) (es : List (TrackedEntry P))
      → All Q es
      → All Q (failover settle world is last es).1
  All-failover [] last es h = unfold failover in h
  All-failover (i ∷ is) last es h = elim (seen (verdict world es i)) [
    | stopped x e ↦ rw (failover-stop settle world i is last es x e) h
    | skipped e ↦ rw (failover_skip settle world i is last es e) (All-failover is last es h)
    | served r e ↦
        rw (failover_serve settle world i is last es r e) (All-modify Q settle settle_keeps es i h)
    | retried x e ↦
        let f = entry_failure (world i).failed_at x in
        rw (failover_retry settle world i is last es x e) (
          All-failover is (some x) (modify es i f)
            (All-modify Q f (failure_keeps (world i).failed_at x) es i h))
  ]

  All-over_candidates :
      (is : List ℕ) (es : List (TrackedEntry P))
      → All Q es
      → All Q (over_candidates settle world is es).1
  unfolding over_candidates
  All-over_candidates [] es h = h
  All-over_candidates (i ∷ is) es h = All-failover (i ∷ is) none es h

abbrev pub EntryIsValid : {P : Type 0} → TrackedEntry P → Type 0
EntryIsValid e = IsValid e.health

entry_success-IsValid :
    {P : Type 0} (e : TrackedEntry P) → EntryIsValid e → EntryIsValid (entry_success e)
unfolding entry_success
entry_success-IsValid e v = record_success-IsValid e.health v

entry_failure-IsValid :
    {P : Type 0} (now : ℕ) (x : Error) (e : TrackedEntry P)
    → EntryIsValid e
    → EntryIsValid (entry_failure now x e)
unfolding entry_failure
entry_failure-IsValid now x e v = record_failure-IsValid now e.health v

-- A request and the start of a stream keep every tracker valid, whatever the providers answer.
pub request-IsValid :
    {P R : Type 0} (role : Role) (world : ℕ → Attempt R) (es : List (TrackedEntry P))
    → All EntryIsValid es
    → All EntryIsValid (complete role world es).1 × All EntryIsValid (stream role world es).1
unfolding complete stream
request-IsValid role world es h = (
  All-over_candidates EntryIsValid entry_success entry_success-IsValid entry_failure-IsValid world
      (candidates role es) es h,
  All-over_candidates EntryIsValid (λ e. e) (λ e v. v) entry_failure-IsValid world
      (candidates role es) es h,
)

same_available :
    {P : Type 0} (es : List (TrackedEntry P)) (i j now : ℕ) (f : TrackedEntry P → TrackedEntry P)
    → i ≢ j
    → available_at (modify es i f) j now ≡ available_at es j now
unfolding available_at
same_available es i j now f h = ground (arith, get_elem?-modify_ne es i j f h)

module _ {P R : Type 0} (world : ℕ → Attempt R) where
  unavailable_not_served :
      (es : List (TrackedEntry P)) (i : ℕ) (r : R)
      → verdict world es i ≡ serve r
      → available_at es i (world i).asked_at ≡ true
  unfolding verdict
  unavailable_not_served es i r h = ground arith

  unavailable_not_retried :
      (es : List (TrackedEntry P)) (i : ℕ) (x : Error)
      → verdict world es i ≡ retry x
      → available_at es i (world i).asked_at ≡ true
  unfolding verdict
  unavailable_not_retried es i x h = ground arith

module _ {P R : Type 0} (settle : TrackedEntry P → TrackedEntry P) (world : ℕ → Attempt R) where
  failover_unavailable :
      (is : List ℕ) (last : Option Error) (es : List (TrackedEntry P)) (j : ℕ)
      → available_at es j (world j).asked_at ≡ false
      → get_elem? (failover settle world is last es).1 j ≡ get_elem? es j
  failover_unavailable [] last es j h = unfold failover in refl
  failover_unavailable (i ∷ is) last es j h =
      let other : available_at es i (world i).asked_at ≡ true → i ≢ j =
        λ a p. false≢true (sym h ∙ ap (λ k. available_at es k (world k).asked_at) (sym p) ∙ a) in
      elim (seen (verdict world es i)) [
        | stopped x e ↦ rw (failover-stop settle world i is last es x e)
        | skipped e ↦
            rw (failover_skip settle world i is last es e) (failover_unavailable is last es j h)
        | served r e ↦
            rw (failover_serve settle world i is last es r e)
              (get_elem?-modify_ne es i j settle (other (unavailable_not_served world es i r e)))
        | retried x e ↦
            let f = entry_failure (world i).failed_at x in
            let ne = other (unavailable_not_retried world es i x e) in
            rw (failover_retry settle world i is last es x e) (
              failover_unavailable is (some x) (modify es i f) j
                (same_available es i j (world j).asked_at f ne ∙ h)
              ∙ get_elem?-modify_ne es i j f ne)
      ]

  over_candidates_unavailable :
      (is : List ℕ) (es : List (TrackedEntry P)) (j : ℕ)
      → available_at es j (world j).asked_at ≡ false
      → get_elem? (over_candidates settle world is es).1 j ≡ get_elem? es j
  unfolding over_candidates
  over_candidates_unavailable [] es j h = refl
  over_candidates_unavailable (i ∷ is) es j h = failover_unavailable (i ∷ is) none es j h

-- A request leaves the entry of a provider that is not available when its turn comes exactly as it
-- was: a dead provider stays dead through any request.
pub complete_unavailable :
    {P R : Type 0} (role : Role) (world : ℕ → Attempt R) (es : List (TrackedEntry P)) (j : ℕ)
    → available_at es j (world j).asked_at ≡ false
    → get_elem? (complete role world es).1 j ≡ get_elem? es j
unfolding complete
complete_unavailable role world es j h =
    over_candidates_unavailable entry_success world (candidates role es) es j h

-- How many chunks of a stream carry a retryable error.
pub retryable_chunks : List (ℕ × Option Error) → ℕ
retryable_chunks [] = 0
retryable_chunks ((now, none) ∷ chunks) = retryable_chunks chunks
retryable_chunks ((now, some x) ∷ chunks) =
    let rest = retryable_chunks chunks in if is_retryable x then suc rest else rest

wrap_stream_sound :
    (chunks : List (ℕ × Option Error)) (saw : Bool) (h : HealthTracker)
    → (saw ≡ false → retryable_chunks chunks ≡ 0 → wrap_stream chunks saw h ≡ (record_success h).0)
      × (saw ≡ true → (wrap_stream chunks saw h).failures ≡ h.failures + retryable_chunks chunks)
      × (saw ≡ false
          → 0 < retryable_chunks chunks
          → (wrap_stream chunks saw h).failures ≡ h.failures + retryable_chunks chunks)
unfolding wrap_stream retryable_chunks record_failure
wrap_stream_sound [] saw h = ground arith
wrap_stream_sound ((now, none) ∷ chunks) saw h = wrap_stream_sound chunks saw h
wrap_stream_sound ((now, some x) ∷ chunks) saw h = ground (
  arith,
  wrap_stream_sound chunks (saw || is_retryable x)
      (if is_retryable x then (record_failure now h).0 else h),
)

-- A stream that is read to its end counts as a success if no chunk carries a retryable error, and
-- otherwise adds one failure for each chunk that does.
pub wrap_stream_verdict :
    (chunks : List (ℕ × Option Error)) (h : HealthTracker)
    → (retryable_chunks chunks ≡ 0 → wrap_stream chunks false h ≡ (record_success h).0)
      × (0 < retryable_chunks chunks
          → (wrap_stream chunks false h).failures ≡ h.failures + retryable_chunks chunks)
wrap_stream_verdict chunks h = let s = wrap_stream_sound chunks false h in (s.0 refl, s.2 refl)

-- ===== src/Provider/Chain/Failover.antt =====
-- The failover loop of internal/provider/chain.go against a description without state: what each
-- candidate does is judged on the entries as they are before the call.
use sclaw.Prelude.{
  ℕ, ◌≡◌, refl, Option, none, some, List, [], ◌∷◌, map, if◌then◌else◌, get_elem?, modify, length,
  length-modify, get_elem?-modify_ne, All, arith, ◌≢◌, ap, ◌∙◌, sym,
}
use sclaw.Provider.Errors.{Error, is_retryable, no_provider}
use sclaw.Provider.Chain.Candidates.{Distinct, candidates-Distinct}
use sclaw.Provider.Chain.{
  Role, TrackedEntry, Attempt, Result, ok, err, answer, failure, available_at, entry_failure,
  entry_success, exhausted, failover, over_candidates, complete, stream, candidates,
}

-- What one candidate does to the call.
pub data Verdict (R : Type 0) : Type 0 where
  stop : Error → Verdict R
  skip : Verdict R
  serve : R → Verdict R
  retry : Error → Verdict R

module _ {P R : Type 0} where
  unfoldable pub verdict : (ℕ → Attempt R) → List (TrackedEntry P) → ℕ → Verdict R
  verdict world es i = elim (world i).interrupted [
    | some x ↦ stop x
    | none ↦
        if available_at es i (world i).asked_at
        then elim (world i).reply [
          | answer r ↦ serve r
          | failure x ↦ if is_retryable x then retry x else stop x
        ]
        else skip
  ]

  -- A write at another index does not change the verdict.
  verdict-modify :
      (world : ℕ → Attempt R) (es : List (TrackedEntry P)) (i j : ℕ)
      (f : TrackedEntry P → TrackedEntry P)
      → i ≢ j
      → verdict world (modify es i f) j ≡ verdict world es j
  unfolding verdict available_at
  verdict-modify world es i j f h = ground (arith, get_elem?-modify_ne es i j f h)

  verdicts-modify :
      (world : ℕ → Attempt R) (es : List (TrackedEntry P)) (i : ℕ) (is : List ℕ)
      (f : TrackedEntry P → TrackedEntry P)
      → All (λ j. i ≢ j) is
      → map (verdict world (modify es i f)) is ≡ map (verdict world es) is
  verdicts-modify world es i [] f h = refl
  verdicts-modify world es i (j ∷ is) f h =
      cc (verdict-modify world es i j f h.0, verdicts-modify world es i is f h.1)

module _ {R : Type 0} where
  -- The first candidate that serves or stops decides; if none does, the last retryable error is
  -- wrapped.
  unfoldable pub decide : List (Verdict R) → Option Error → Result R
  unfolding exhausted
  decide [] last = err (exhausted last)
  decide (stop x ∷ vs) last = err x
  decide (skip ∷ vs) last = decide vs last
  decide (serve r ∷ vs) last = ok r
  decide (retry x ∷ vs) last = decide vs (some x)

-- A verdict with the equation that says which it is.
pub data Seen {R : Type 0} (v : Verdict R) : Type 0 where
  stopped : (x : Error) → v ≡ stop x → Seen v
  skipped : v ≡ skip → Seen v
  served : (r : R) → v ≡ serve r → Seen v
  retried : (x : Error) → v ≡ retry x → Seen v

pub seen : {R : Type 0} (v : Verdict R) → Seen v
seen (stop x) = stopped x refl
seen skip = skipped refl
seen (serve r) = served r refl
seen (retry x) = retried x refl

module _ {P R : Type 0} (settle : TrackedEntry P → TrackedEntry P) (world : ℕ → Attempt R) (i : ℕ)
    (is : List ℕ) (last : Option Error) (es : List (TrackedEntry P)) where
  pub failover-stop :
      (x : Error)
      → verdict world es i ≡ stop x
      → failover settle world (i ∷ is) last es ≡ (err x, es)
  unfolding failover verdict
  failover-stop x h = ground arith

  pub failover_skip :
      verdict world es i ≡ skip
      → failover settle world (i ∷ is) last es ≡ failover settle world is last es
  unfolding failover verdict
  failover_skip h = ground arith

  pub failover_serve :
      (r : R)
      → verdict world es i ≡ serve r
      → failover settle world (i ∷ is) last es ≡ (ok r, modify es i settle)
  unfolding failover verdict
  failover_serve r h = ground arith

  pub failover_retry :
      (x : Error)
      → verdict world es i ≡ retry x
      → failover settle world (i ∷ is) last es
        ≡ failover settle world is (some x) (modify es i (entry_failure (world i).failed_at x))
  unfolding failover verdict
  failover_retry x h = ground arith

module _ {P R : Type 0} (settle : TrackedEntry P → TrackedEntry P) (world : ℕ → Attempt R) where
  failover-eq-decide :
      (is : List ℕ) (last : Option Error) (es : List (TrackedEntry P))
      → Distinct is
      → (failover settle world is last es).0 ≡ decide (map (verdict world es) is) last
  unfolding decide
  failover-eq-decide [] last es d = unfold failover in refl
  failover-eq-decide (i ∷ is) last es d = elim (seen (verdict world es i)) [
    | stopped x e ↦ rw (failover-stop settle world i is last es x e, e)
    | skipped e ↦
        rw (failover_skip settle world i is last es e, e) (failover-eq-decide is last es d.1)
    | served r e ↦ rw (failover_serve settle world i is last es r e, e)
    | retried x e ↦
        let f = entry_failure (world i).failed_at x in
        rw (failover_retry settle world i is last es x e, e)
          (failover-eq-decide is (some x) (modify es i f) d.1
            ∙ ap (λ vs. decide vs (some x)) (verdicts-modify world es i is f d.0))
  ]

  pub length-failover :
      (is : List ℕ) (last : Option Error) (es : List (TrackedEntry P))
      → length (failover settle world is last es).1 ≡ length es
  length-failover [] last es = unfold failover in refl
  length-failover (i ∷ is) last es = elim (seen (verdict world es i)) [
    | stopped x e ↦ rw (failover-stop settle world i is last es x e)
    | skipped e ↦ rw (failover_skip settle world i is last es e) (length-failover is last es)
    | served r e ↦ rw (failover_serve settle world i is last es r e) (length-modify es i settle)
    | retried x e ↦
        let f = entry_failure (world i).failed_at x in
        rw (failover_retry settle world i is last es x e)
          (length-failover is (some x) (modify es i f) ∙ length-modify es i f)
  ]

  -- An index that is not tried keeps its entry.
  pub failover_untried :
      (is : List ℕ) (last : Option Error) (es : List (TrackedEntry P)) (j : ℕ)
      → All (λ i. j ≢ i) is
      → get_elem? (failover settle world is last es).1 j ≡ get_elem? es j
  failover_untried [] last es j h = unfold failover in refl
  failover_untried (i ∷ is) last es j h = elim (seen (verdict world es i)) [
    | stopped x e ↦ rw (failover-stop settle world i is last es x e)
    | skipped e ↦ rw (failover_skip settle world i is last es e) (failover_untried is last es j h.1)
    | served r e ↦
        rw (failover_serve settle world i is last es r e)
          (get_elem?-modify_ne es i j settle (λ p. h.0 (sym p)))
    | retried x e ↦
        let f = entry_failure (world i).failed_at x in
        rw (failover_retry settle world i is last es x e) (
          failover_untried is (some x) (modify es i f) j h.1
          ∙ get_elem?-modify_ne es i j f (λ p. h.0 (sym p)))
  ]

module _ {P R : Type 0} (role : Role) (world : ℕ → Attempt R) (es : List (TrackedEntry P)) where
  -- The same for a list of candidates that may be empty.
  abbrev pub from_verdicts : List ℕ → Result R
  from_verdicts [] = err (no_provider ∷ [])
  from_verdicts (i ∷ is) = decide (map (verdict world es) (i ∷ is)) none

  over_candidates-eq :
      (settle : TrackedEntry P → TrackedEntry P) (is : List ℕ)
      → Distinct is
      → (over_candidates settle world is es).0 ≡ from_verdicts is
  unfolding over_candidates
  over_candidates-eq settle [] d = refl
  over_candidates-eq settle (i ∷ is) d = failover-eq-decide settle world (i ∷ is) none es d

  -- The result of a request is decided by the candidates' verdicts on the entries as they were
  -- before it, in the order of the candidates: what a failed candidate did to its own entry has no
  -- influence on the candidates after it. `Stream` chooses as `Complete` does.
  pub complete-eq-decide :
      ((complete role world es).0 ≡ from_verdicts (candidates role es))
      × ((stream role world es).0 ≡ (complete role world es).0)
  unfolding complete stream
  complete-eq-decide =
      let d = (candidates-Distinct role es).1 in
      (
        over_candidates-eq entry_success (candidates role es) d,
        over_candidates-eq (λ e. e) (candidates role es) d
            ∙ sym (over_candidates-eq entry_success (candidates role es) d),
      )

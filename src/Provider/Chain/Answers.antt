-- ===== src/Provider/Chain/Answers.antt =====
-- Which answer a request gets, and which error when there is none (internal/provider/chain.go).
use sclaw.Prelude.{
  ℕ, ◌≡◌, ◌≢◌, ◌↔◌, ◌⊎◌, inl, inr, refl, ap, ◌∙◌, Option, none, some, List, [], ◌∷◌, ◌++◌, map, All,
  arith,
}
use sclaw.Provider.Errors.{Error}
use sclaw.Provider.Chain.{Role, TrackedEntry, Attempt, ok, err, exhausted, complete, candidates}
use sclaw.Provider.Chain.Failover.{
  seen, stopped, skipped, served, retried, Verdict, skip, serve, retry, verdict, from_verdicts,
  decide, complete-eq-decide,
}

-- The candidate is left for the next one.
abbrev pub Passes : {R : Type 0} → Verdict R → Type 0
Passes v = (v ≡ skip) ⊎ ((x : Error) × (v ≡ retry x))

module _ {R : Type 0} (f : ℕ → Verdict R) where
  -- The first candidate that serves, all before it having passed.
  pub record FirstServes (r : R) (is : List ℕ) : Type 0 where
    pub before : List ℕ
    pub chosen : ℕ
    pub after : List ℕ
    pub split : is ≡ before ++ chosen ∷ after
    pub passed : All (λ i. Passes (f i)) before
    pub serves : f chosen ≡ serve r

  FirstServes-cons :
      (r : R) (i : ℕ) (is : List ℕ) → Passes (f i) → FirstServes r is → FirstServes r (i ∷ is)
  FirstServes-cons r i is p w = record {
    before = i ∷ w.before;
    chosen = w.chosen;
    after = w.after;
    split = ap (◌∷◌ i) w.split;
    passed = (p, w.passed);
    serves = w.serves;
  }

  decide_ok→ :
      (is : List ℕ) (r : R) (last : Option Error) → decide (map f is) last ≡ ok r → FirstServes r is
  unfolding decide
  decide_ok→ [] r last h = ground arith
  decide_ok→ (i ∷ is) r last h = elim (seen (f i)) [
    | stopped x e ↦ ground arith
    | skipped e ↦ FirstServes-cons r i is (inl e) (decide_ok→ is r last (rw e at h))
    | served q e ↦ record {
      before = [];
      chosen = i;
      after = is;
      split = refl;
      passed = tt;
      serves = ground arith;
    }
    | retried x e ↦ FirstServes-cons r i is (inr (x, e)) (decide_ok→ is r (some x) (rw e at h))
  ]

  decide_passed :
      (pre post : List ℕ) (i : ℕ) (r : R) (last : Option Error)
      → All (λ j. Passes (f j)) pre
      → f i ≡ serve r
      → decide (map f (pre ++ i ∷ post)) last ≡ ok r
  unfolding decide
  decide_passed [] post i r last p e = rw e
  decide_passed (j ∷ pre) post i r last p e = elim p.0 [
    | inl s ↦ rw s (decide_passed pre post i r last p.1 e)
    | inr (x, s) ↦ rw s (decide_passed pre post i r (some x) p.1 e)
  ]

  -- The retryable error that is left when every candidate has passed.
  unfoldable pub last_retry : List ℕ → Option Error → Option Error
  last_retry [] last = last
  last_retry (i ∷ is) last = elim (f i) [
    | retry x ↦ last_retry is (some x)
    | _ ↦ last_retry is last
  ]

  decide-exhausted :
      (is : List ℕ) (last : Option Error)
      → All (λ j. Passes (f j)) is
      → decide (map f is) last ≡ err (exhausted (last_retry is last))
  unfolding decide last_retry
  decide-exhausted [] last p = refl
  decide-exhausted (i ∷ is) last p = elim p.0 [
    | inl s ↦ ground (arith, decide-exhausted is last p.1)
    | inr (x, s) ↦ ground (arith, decide-exhausted is (some x) p.1)
  ]

module _ {P R : Type 0} (role : Role) (world : ℕ → Attempt R) (es : List (TrackedEntry P)) where
  from_verdicts-ok :
      (is : List ℕ) (r : R)
      → (from_verdicts role world es is ≡ ok r) ↔ FirstServes (verdict world es) r is
  from_verdicts-ok [] r =
      ((λ h. ground arith), λ w. absurd (no_split w.before w.chosen w.after w.split))
    where
      no_split : (pre : List ℕ) (i : ℕ) (post : List ℕ) → [] ≡ pre ++ i ∷ post → ⊥
      no_split [] i post e = cc
      no_split (j ∷ pre) i post e = cc
  from_verdicts-ok (i ∷ is) r = (
    decide_ok→ (verdict world es) (i ∷ is) r none,
    λ w.
        ap (λ js. decide (map (verdict world es) js) none) w.split
        ∙ decide_passed (verdict world es) w.before w.after w.chosen r none w.passed w.serves,
  )

  -- `Complete` answers `r` exactly when some candidate serves `r` and every candidate before it is
  -- unavailable or fails with a retryable error.
  pub complete_ok_iff :
      (r : R)
      → ((complete role world es).0 ≡ ok r) ↔ FirstServes (verdict world es) r (candidates role es)
  complete_ok_iff r =
      rw ((complete-eq-decide role world es).0) (from_verdicts-ok (candidates role es) r)

  -- If there are candidates and all pass, the error is ErrAllProviders, wrapping the last retryable
  -- error if there was one.
  pub complete-exhausted :
      candidates role es ≢ []
      → All (λ i. Passes (verdict world es i)) (candidates role es)
      → (complete role world es).0
        ≡ err (exhausted (last_retry (verdict world es) (candidates role es) none))
  complete-exhausted some_candidate p =
      (complete-eq-decide role world es).0 ∙ from (candidates role es) some_candidate p
    where
      from :
          (is : List ℕ)
          → is ≢ []
          → All (λ i. Passes (verdict world es i)) is
          → from_verdicts role world es is ≡ err (exhausted (last_retry (verdict world es) is none))
      from [] n q = absurd (n refl)
      from (i ∷ is) n q = decide-exhausted (verdict world es) (i ∷ is) none q

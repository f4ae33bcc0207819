-- ===== src/Provider/Chain/Candidates.antt =====
-- The order in which internal/provider/chain.go tries the providers of a role.
use mathlib.Core.Path.{subst₂}
use sclaw.Prelude.{
  ℕ, suc, ◌≤◌, ◌≡◌, refl, Bool, true, false, not, ◌&&◌, List, [], ◌∷◌, ◌++◌, if◌then◌else◌, is_yes,
  String-discrete, All, All-append, All-weaken, arith, inl, inr, ◌≢◌, Bool-cases, sym,
}
use sclaw.Provider.Chain.{
  Role, role_fallback, TrackedEntry, is_fallback_for, split_candidates, candidates,
}

-- No index stands twice in a list.
abbrev pub Distinct : List ℕ → Type 0
Distinct [] = Unit
Distinct (i ∷ is) = All (λ j. i ≢ j) is × Distinct is

abbrev Disjoint : List ℕ → List ℕ → Type 0
Disjoint xs ys = All (λ x. All (λ y. x ≢ y) ys) xs

Disjoint-cons :
    (i : ℕ) (xs ys : List ℕ) → All (λ x. suc i ≤ x) xs → Disjoint xs ys → Disjoint xs (i ∷ ys)
Disjoint-cons i [] ys above d = tt
Disjoint-cons i (x ∷ xs) ys above d = (((λ e. omega arith), d.0), Disjoint-cons i xs ys above.1 d.1)

Distinct-append :
    (xs ys : List ℕ) → Distinct xs → Distinct ys → Disjoint xs ys → Distinct (xs ++ ys)
Distinct-append [] ys dx dy h = dy
Distinct-append (x ∷ xs) ys dx dy h =
    (All-append (λ y. x ≢ y) xs ys dx.0 h.0, Distinct-append xs ys dx.1 dy h.1)

module _ {P : Type 0} where
  -- An entry of the role itself, and a fallback that covers the role without having it.
  abbrev pub is_direct : Role → TrackedEntry P → Bool
  is_direct role e = is_yes (String-discrete e.role role)

  abbrev pub is_cover : Role → TrackedEntry P → Bool
  is_cover role e =
      not (is_direct role e)
      && (is_yes (String-discrete e.role role_fallback) && is_fallback_for e.fallback_for role)

  -- The indices, from `i` on, of the entries that pass a test, in ascending order.
  pub indices_from : (TrackedEntry P → Bool) → ℕ → List (TrackedEntry P) → List ℕ
  indices_from test i [] = []
  indices_from test i (e ∷ es) =
      if test e then i ∷ indices_from test (suc i) es else indices_from test (suc i) es

  split_candidates-eq :
      (role : Role) (i : ℕ) (es : List (TrackedEntry P))
      → split_candidates role i es
        ≡ (indices_from (is_direct role) i es, indices_from (is_cover role) i es)
  unfolding split_candidates indices_from
  split_candidates-eq role i [] = refl
  split_candidates-eq role i (e ∷ es) = ground (arith, split_candidates-eq role (suc i) es)

  candidates-eq :
      (role : Role) (es : List (TrackedEntry P))
      → candidates role es ≡ indices_from (is_direct role) 0 es ++ indices_from (is_cover role) 0 es
  unfolding candidates
  candidates-eq role es = rw (split_candidates-eq role 0 es)

  indices_from-ge :
      (test : TrackedEntry P → Bool) (i : ℕ) (es : List (TrackedEntry P)) (k : ℕ)
      → k ≤ i
      → All (λ j. k ≤ j) (indices_from test i es)
  unfolding indices_from
  indices_from-ge test i [] k h = tt
  indices_from-ge test i (e ∷ es) k h =
      elim (test e)
        as (λ b.
          All (λ j. k ≤ j)
            (if b then i ∷ indices_from test (suc i) es else indices_from test (suc i) es)) [
              | true ↦ (h, indices_from-ge test (suc i) es k (omega arith))
              | false ↦ indices_from-ge test (suc i) es k (omega arith)
            ]

  indices_from-above :
      (test : TrackedEntry P → Bool) (i : ℕ) (es : List (TrackedEntry P))
      → All (λ j. i ≢ j) (indices_from test (suc i) es)
  indices_from-above test i es =
      All-weaken (λ j. suc i ≤ j) (λ j. i ≢ j) (indices_from test (suc i) es) (λ j h. omega arith)
        (indices_from-ge test (suc i) es (suc i) (omega arith))

  indices_from-Distinct :
      (test : TrackedEntry P → Bool) (i : ℕ) (es : List (TrackedEntry P))
      → Distinct (indices_from test i es)
  unfolding indices_from
  indices_from-Distinct test i [] = tt
  indices_from-Distinct test i (e ∷ es) =
      elim (test e)
        as (λ b.
          Distinct (if b then i ∷ indices_from test (suc i) es else indices_from test (suc i) es)) [
            | true ↦ (indices_from-above test i es, indices_from-Distinct test (suc i) es)
            | false ↦ indices_from-Distinct test (suc i) es
          ]

  indices_from-yes :
      (test : TrackedEntry P → Bool) (i : ℕ) (e : TrackedEntry P) (es : List (TrackedEntry P))
      → test e ≡ true
      → indices_from test i (e ∷ es) ≡ i ∷ indices_from test (suc i) es
  unfolding indices_from
  indices_from-yes test i e es h = rw h

  indices_from-no :
      (test : TrackedEntry P → Bool) (i : ℕ) (e : TrackedEntry P) (es : List (TrackedEntry P))
      → test e ≡ false
      → indices_from test i (e ∷ es) ≡ indices_from test (suc i) es
  unfolding indices_from
  indices_from-no test i e es h = rw h

  -- Two tests that no entry passes both of give disjoint indices.
  indices_from-Disjoint :
      (s t : TrackedEntry P → Bool) (i : ℕ) (es : List (TrackedEntry P))
      → ((e : TrackedEntry P) → s e ≡ true → t e ≡ false)
      → Disjoint (indices_from s i es) (indices_from t i es)
  indices_from-Disjoint s t i [] h = unfold indices_from in tt
  indices_from-Disjoint s t i (e ∷ es) h =
      let rest = indices_from-Disjoint s t (suc i) es h in
      let above = indices_from-above t i es in
      elim (Bool-cases (s e)) [
        | inl yes_s ↦
            subst₂ Disjoint (sym (indices_from-yes s i e es yes_s))
              (sym (indices_from-no t i e es (h e yes_s))) (above, rest)
        | inr no_s ↦ elim (Bool-cases (t e)) [
          | inl yes_t ↦
              subst₂ Disjoint (sym (indices_from-no s i e es no_s))
                (sym (indices_from-yes t i e es yes_t))
                (Disjoint-cons i (indices_from s (suc i) es) (indices_from t (suc i) es)
                  (indices_from-ge s (suc i) es (suc i) (omega arith)) rest)
          | inr no_t ↦
              subst₂ Disjoint (sym (indices_from-no s i e es no_s))
                (sym (indices_from-no t i e es no_t)) rest
        ]
      ]

  direct_not_cover :
      (role : Role) (e : TrackedEntry P) → is_direct role e ≡ true → is_cover role e ≡ false
  direct_not_cover role e h = rw h

  -- The candidates of a role are first its own entries in order of declaration, then the fallbacks
  -- that cover it in order of declaration, and no entry is a candidate twice.
  pub candidates-Distinct :
      (role : Role) (es : List (TrackedEntry P))
      → (candidates role es
          ≡ indices_from (is_direct role) 0 es ++ indices_from (is_cover role) 0 es)
        × Distinct (candidates role es)
  candidates-Distinct role es = (
    candidates-eq role es,
    rw (candidates-eq role es) (
        Distinct-append (indices_from (is_direct role) 0 es) (indices_from (is_cover role) 0 es)
          (indices_from-Distinct (is_direct role) 0 es) (indices_from-Distinct (is_cover role) 0 es)
          (indices_from-Disjoint (is_direct role) (is_cover role) 0 es (direct_not_cover role))),
  )

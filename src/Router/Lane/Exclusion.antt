-- ===== src/Router/Lane/Exclusion.antt =====
-- internal/router/lane.go: mutual exclusion of the goroutines.
use native.Mathlib.Decide.{ℕ_discrete}
use sclaw.Prelude.{
  ℕ, zero, suc, ◌+◌, ◌≤◌, ◌≡◌, ◌≢◌, refl, ap, Bool, true, false, some, List, [], ◌∷◌, get_elem?,
  total, le-total, All-replicate, arith, get_some,
}
use sclaw.Prelude.Dict.{lookup}
use sclaw.Router.Lane.{idle, inside, Locks, Reach, here, next, new_lane_lock}
use sclaw.Router.Lane.Invariant.{Linked, Inv}
use sclaw.Router.Lane.Measures.{holds_of, Within, bit}
use sclaw.Router.Lane.Steps.{Step-Inv, link_of}

module _ {K : Type 0} (dec : Discrete K) where
  pub new_lane_lock-Inv : (n : ℕ) → Inv dec (new_lane_lock n)
  unfolding new_lane_lock lookup
  new_lane_lock-Inv n = record {
    linked = All-replicate (Linked dec []) n idle tt;
    within = All-replicate (Within 0) n idle tt;
    placed = λ k l e. cc;
    refs_exact = λ l x e. cc;
    held_exact = λ l x e. cc;
  }

  pub Reach-Inv : {s t : Locks K} → Inv dec s → Reach dec s t → Inv dec t
  Reach-Inv v here = v
  Reach-Inv v (next r st) = Step-Inv dec st (Reach-Inv v r)

two-le-total :
    {A : Type 0} (f : A → ℕ) (xs : List A) (i j : ℕ) {x y : A}
    → i ≢ j
    → get_elem? xs i ≡ some x
    → get_elem? xs j ≡ some y
    → f x + f y ≤ total f xs
two-le-total f [] i j ne hx hy = cc
two-le-total f (z ∷ xs) zero zero ne hx hy = absurd (ne refl)
two-le-total f (z ∷ xs) zero (suc j) ne hx hy = ground (arith, le-total f xs j hy)
two-le-total f (z ∷ xs) (suc i) zero ne hx hy = ground (arith, le-total f xs i hx)
two-le-total f (z ∷ xs) (suc i) (suc j) ne hx hy =
    omega (arith, two-le-total f xs i j (λ e. ne (ap suc e)) hx hy)

bit-le-one : (b : Bool) → bit b ≤ 1
bit-le-one true = omega arith
bit-le-one false = omega arith

module _ {K : Type 0} (dec : Discrete K) where
  -- However Acquire, TryAcquire, Release and Cleanup of any number of goroutines are interleaved,
  -- at most one goroutine is between the return of Acquire (or a successful TryAcquire) and the
  -- call of Release for a session, also while stale lanes are removed and made again.
  pub mutual_exclusion :
      (n : ℕ) (s : Locks K)
      → Reach dec (new_lane_lock n) s
      → (i j : ℕ) (k : K) (l m : ℕ) → get_elem? s.threads i ≡ some (inside k l)
      → get_elem? s.threads j ≡ some (inside k m)
      → i ≡ j
  mutual_exclusion n s r i j k l m hi hj =
      let v = Reach-Inv dec (new_lane_lock-Inv dec n) r in
      let li : lookup dec k s.lanes ≡ some l = link_of dec i (inside k l) s hi v in
      let lj : lookup dec k s.lanes ≡ some m = link_of dec j (inside k m) s hj v in
      let (x, has) = get_some s.heap l (v.placed k l li) in
      elim (ℕ_discrete i j) [
        | yes e ↦ e
        | no ne ↦ absurd (
            ground (
              arith,
              two-le-total (holds_of l) s.threads i j ne hi hj,
              v.held_exact l x has,
              bit-le-one x.held,
            ))
      ]

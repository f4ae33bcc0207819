-- ===== src/Router/Lane/Fresh.antt =====
-- internal/router/lane.go: a lane that is made anew.
use sclaw.Prelude.{
  ℕ, zero, suc, ◌+◌, ◌≡◌, refl, sym, ap, ◌∙◌, subst, inl, inr, false, none, some, List, [], ◌∷◌,
  ◌++◌, length, get_elem?, length-append, total, total_none, All-weaken, arith, Option-cases,
}
use sclaw.Prelude.Dict.{lookup, insert, lookup-insert_self, lookup-insert_ne}
use sclaw.Router.Lane.{Lane, Pc, idle, waiting, inside, trying, backing, leaving, Locks, ensure}
use sclaw.Router.Lane.Measures.{refs_of, holds_of, Within, bit}
use sclaw.Router.Lane.Invariant.{Linked, Inv, insert-Linked}

Within-suc : {K : Type 0} (n : ℕ) (pc : Pc K) → Within n pc → Within (n + 1) pc
Within-suc n idle h = tt
Within-suc n (waiting k m) h = omega arith
Within-suc n (inside k m) h = omega arith
Within-suc n (trying k m) h = omega arith
Within-suc n (backing k m) h = omega arith
Within-suc n (leaving m) h = omega arith

-- Nobody is counted in, or holds, a lane that is not on the heap yet.
Within-fresh :
    {K : Type 0} (n : ℕ) (pc : Pc K) → Within n pc → (refs_of n pc ≡ 0) × (holds_of n pc ≡ 0)
Within-fresh n idle h = (refl, refl)
Within-fresh n (waiting k m) h = ground arith
Within-fresh n (inside k m) h = ground arith
Within-fresh n (trying k m) h = ground arith
Within-fresh n (backing k m) h = ground arith
Within-fresh n (leaving m) h = ground arith

abbrev fresh_lane : Lane
fresh_lane = record { held = false; refs = 0; stale = false }

-- A fresh lane at the end of the heap, for a number that is 0 in it and 0 for its index.
fresh-exact :
    (g : Lane → ℕ) (n : ℕ → ℕ) (heap : List Lane)
    → g fresh_lane ≡ n (length heap)
    → ((m : ℕ) (x : Lane) → get_elem? heap m ≡ some x → g x ≡ n m)
    → (m : ℕ) (x : Lane) → get_elem? (heap ++ fresh_lane ∷ []) m ≡ some x
    → g x ≡ n m
fresh-exact g n [] z exact zero x e = ground arith
fresh-exact g n [] z exact (suc m) x e = ground arith
fresh-exact g n (y ∷ heap) z exact zero x e = exact zero x e
fresh-exact g n (y ∷ heap) z exact (suc m) x e =
    fresh-exact g (λ k. n (suc k)) heap z (λ k w h. exact (suc k) w h) m x e

module _ {K : Type 0} (dec : Discrete K) where
  pub ensure_fresh :
      (k : K) (s : Locks K)
      → lookup dec k s.lanes ≡ none
      → ensure dec k s ≡ record s {
        lanes = insert dec k (length s.heap) s.lanes;
        heap = s.heap ++ fresh_lane ∷ [];
      }
  unfolding ensure
  ensure_fresh k s e = rw (e, ensure)

  pub ensure_known :
      (k : K) (s : Locks K) (l : ℕ) → lookup dec k s.lanes ≡ some l → ensure dec k s ≡ s
  unfolding ensure
  ensure_known k s l e = rw (e, ensure)

  fresh-Inv :
      (k : K) (s : Locks K)
      → lookup dec k s.lanes ≡ none
      → Inv dec s
      → Inv dec (record s {
        lanes = insert dec k (length s.heap) s.lanes;
        heap = s.heap ++ fresh_lane ∷ [];
      })
  fresh-Inv k s e v =
      let n = length s.heap in
      let longer = length-append s.heap (fresh_lane ∷ []) in
      record {
        linked =
            All-weaken (Linked dec s.lanes) (Linked dec (insert dec k n s.lanes)) s.threads
              (λ pc. insert-Linked dec k n s.lanes pc e) v.linked;
        within =
            rw longer (All-weaken (Within n) (Within (n + 1)) s.threads (Within-suc n) v.within);
        placed = λ j m h. elim (dec j k) [
          | yes p ↦ omega (
            arith,
            longer,
            fresh_index (
                sym (lookup-insert_self dec k n s.lanes)
                ∙ ap (λ i. lookup dec i (insert dec k n s.lanes)) (sym p)
                ∙ h),
          )
          | no p ↦
              omega (arith, longer, v.placed j m (sym (lookup-insert_ne dec k j n s.lanes p) ∙ h))
        ];
        refs_exact =
            fresh-exact (λ x. x.refs) (λ m. total (refs_of m) s.threads) s.heap
              (sym (
                total_none (refs_of n) s.threads (
                  All-weaken (Within n) (λ pc. refs_of n pc ≡ 0) s.threads
                    (λ pc h. (Within-fresh n pc h).0) v.within)))
              v.refs_exact;
        held_exact =
            fresh-exact (λ x. bit x.held) (λ m. total (holds_of m) s.threads) s.heap
              (sym (
                total_none (holds_of n) s.threads (
                  All-weaken (Within n) (λ pc. holds_of n pc ≡ 0) s.threads
                    (λ pc h. (Within-fresh n pc h).1) v.within)))
              v.held_exact;
      }
    where
      fresh_index : {m : ℕ} → some (length s.heap) ≡ some m → length s.heap ≡ m
      fresh_index h = cc

  pub ensure-Inv : (k : K) (s : Locks K) → Inv dec s → Inv dec (ensure dec k s)
  ensure-Inv k s v = elim (Option-cases (lookup dec k s.lanes)) [
    | inr (l, e) ↦ subst (Inv dec) (sym (ensure_known k s l e)) v
    | inl e ↦ subst (Inv dec) (sym (ensure_fresh k s e)) (fresh-Inv k s e v)
  ]

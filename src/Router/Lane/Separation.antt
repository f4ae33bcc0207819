-- ===== src/Router/Lane/Separation.antt =====
-- internal/router/lane.go: no two keys share a lane.
use sclaw.Prelude.{
  ℕ, ◌≡◌, sym, ap, ◌∙◌, subst, inl, inr, ◌⊎◌, ◌&&◌, some, ◌==◌, length, get_elem?, arith,
  Bool-cases, Option-cases,
}
use sclaw.Prelude.Dict.{Dict, lookup, insert, lookup-insert_self, lookup-insert_ne}
use sclaw.Router.Lane.{
  Pc, idle, leaving, Locks, goto, on_lane, ensure, enroll, drop_stale, unenroll, acquire_enter,
  try_enter, lock, try_fail, try_undo, release_map, release_unlock, cleanup, Step, acquire_enters,
  acquire_locks, release_maps, release_unlocks, try_enters, try_locks, try_fails, try_undoes,
  cleans, Reach, here, next, new_lane_lock, waiting, trying,
}
use sclaw.Router.Lane.Invariant.{Inv}
use sclaw.Router.Lane.Fresh.{ensure_fresh, ensure_known}
use sclaw.Router.Lane.Exclusion.{Reach-Inv, new_lane_lock-Inv}
use sclaw.Router.Lane.Sweeping.{
  Separate, Shrinks, Shrinks-Separate, delete-Shrinks, cleanup-Shrinks,
}

module _ {K : Type 0} (dec : Discrete K) where
  inserted :
      (k : K) (n : ℕ) (lanes : Dict K ℕ) (j : K) (l : ℕ)
      → lookup dec j (insert dec k n lanes) ≡ some l
      → ((j ≡ k) × (l ≡ n)) ⊎ (lookup dec j lanes ≡ some l)
  inserted k n lanes j l e = elim (dec j k) [
    | yes p ↦ inl (
      p,
      cc (lookup-insert_self dec k n lanes, ap (λ i. lookup dec i (insert dec k n lanes)) p, e),
    )
    | no p ↦ inr (sym (lookup-insert_ne dec k j n lanes p) ∙ e)
  ]

  ensure-Separate :
      (k : K) (s : Locks K) → Inv dec s → Separate dec s → Separate dec (ensure dec k s)
  ensure-Separate k s v w = elim (Option-cases (lookup dec k s.lanes)) [
    | inr (l, e) ↦ subst (Separate dec) (sym (ensure_known dec k s l e)) w
    | inl e ↦ subst (Separate dec) (sym (ensure_fresh dec k s e)) (λ i j l a b.
        elim (inserted k (length s.heap) s.lanes i l a) [
          | inl (p, q) ↦ elim (inserted k (length s.heap) s.lanes j l b) [
            | inl (r, _) ↦ p ∙ sym r
            | inr o ↦ absurd (omega (arith, v.placed j l o, q))
          ]
          | inr o ↦ elim (inserted k (length s.heap) s.lanes j l b) [
            | inl (r, q) ↦ absurd (omega (arith, v.placed i l o, q))
            | inr u ↦ w i j l o u
          ]
        ])
  ]

  enroll-Shrinks :
      (i : ℕ) (k : K) (pc : ℕ → Pc K) (s : Locks K) → Shrinks dec s (enroll dec i k pc s)
  unfolding enroll goto on_lane
  enroll-Shrinks i k pc s j m = elim (Option-cases (lookup dec k s.lanes)) [
    | inl e ↦ rw (e, enroll) (λ h. h)
    | inr (l, e) ↦ rw (e, enroll) (λ h. h)
  ]

  drop_stale-Shrinks : (k : K) (l : ℕ) (s : Locks K) → Shrinks dec s (drop_stale dec k l s)
  unfolding drop_stale
  drop_stale-Shrinks k l s j m = elim (Option-cases (get_elem? s.heap l)) [
    | inl e ↦ rw (e, drop_stale) (λ h. h)
    | inr (x, e) ↦ elim (Bool-cases (x.refs == 0 && x.stale)) [
      | inl b ↦ rw (e, drop_stale) (rw b (delete-Shrinks dec k s.lanes j m))
      | inr b ↦ rw (e, drop_stale) (rw b (λ h. h))
    ]
  ]

  undo-Shrinks :
      (i : ℕ) (k : K) (l : ℕ) (pc : Pc K) (s : Locks K)
      → Shrinks dec s (drop_stale dec k l (unenroll i l pc s))
  unfolding unenroll goto on_lane
  undo-Shrinks i k l pc s j m h = drop_stale-Shrinks k l (unenroll i l pc s) j m h

  release_map-Shrinks : (i : ℕ) (k : K) (s : Locks K) → Shrinks dec s (release_map dec i k s)
  unfolding release_map goto
  release_map-Shrinks i k s j m = elim (Option-cases (lookup dec k s.lanes)) [
    | inl e ↦ rw (e, release_map) (λ h. h)
    | inr (l, e) ↦ rw (e, release_map) (undo-Shrinks i k l (leaving l) s j m)
  ]

  -- No step makes two keys share a lane.
  pub Step-Separate : {s t : Locks K} → Step dec s t → Inv dec s → Separate dec s → Separate dec t
  unfolding acquire_enter try_enter lock try_fail try_undo release_unlock goto on_lane
  Step-Separate {s} (acquire_enters i k at) v w =
      Shrinks-Separate dec (ensure dec k s) (enroll dec i k (waiting k) (ensure dec k s))
        (enroll-Shrinks i k (waiting k) (ensure dec k s)) (ensure-Separate k s v w)
  Step-Separate {s} (try_enters i k at) v w =
      Shrinks-Separate dec (ensure dec k s) (enroll dec i k (trying k) (ensure dec k s))
        (enroll-Shrinks i k (trying k) (ensure dec k s)) (ensure-Separate k s v w)
  Step-Separate (acquire_locks i k l x at has free) v w = w
  Step-Separate {s} (release_maps i k l at) v w =
      Shrinks-Separate dec s (release_map dec i k s) (release_map-Shrinks i k s) w
  Step-Separate (release_unlocks i l at) v w = w
  Step-Separate (try_locks i k l x at has free) v w = w
  Step-Separate (try_fails i k l x at has held) v w = w
  Step-Separate {s} (try_undoes i k l at) v w =
      Shrinks-Separate dec s (drop_stale dec k l (unenroll i l idle s)) (undo-Shrinks i k l idle s)
        w
  Step-Separate {s} (cleans active) v w =
      Shrinks-Separate dec s (cleanup dec active s) (cleanup-Shrinks dec active s) w

  pub Reach-Separate : (n : ℕ) {s : Locks K} → Reach dec (new_lane_lock n) s → Separate dec s
  unfolding new_lane_lock lookup
  Reach-Separate n here = λ k j l a b. absurd (cc a)
  Reach-Separate n (next r st) =
      Step-Separate st (Reach-Inv dec (new_lane_lock-Inv dec n) r) (Reach-Separate n r)

-- ===== src/Router/Lane/Steps.antt =====
-- internal/router/lane.go: the steps and the invariant of the lanes.
use sclaw.Prelude.{
  ℕ, ◌+◌, ◌-◌, ◌≡◌, ◌≢◌, refl, sym, ap, ◌∙◌, subst, inl, inr, true, false, ◌&&◌, none, some, ◌==◌,
  length, get_elem?, le-total, All-get, arith, Bool-cases, Option-cases, get_some,
}
use sclaw.Prelude.Dict.{delete, lookup}
use sclaw.Router.Lane.{
  Lane, Pc, idle, waiting, inside, trying, backing, leaving, Locks, goto, on_lane, ensure, enroll,
  drop_stale, unenroll, acquire_enter, try_enter, lock, try_fail, try_undo, release_map,
  release_unlock, cleanup, Step, acquire_enters, acquire_locks, release_maps, release_unlocks,
  try_enters, try_locks, try_fails, try_undoes, cleans,
}
use sclaw.Router.Lane.Invariant.{Linked, Inv, move-Inv, goto-Inv, delete-Inv}
use sclaw.Router.Lane.Measures.{refs_of, holds_of, Within}
use sclaw.Router.Lane.Fresh.{ensure-Inv}
use sclaw.Router.Lane.Cleaning.{sweep_all-Inv}

module _ {K : Type 0} (dec : Discrete K) where
  enroll_known :
      (i : ℕ) (k : K) (pc : ℕ → Pc K) (s : Locks K) (l : ℕ)
      → lookup dec k s.lanes ≡ some l
      → enroll dec i k pc s
        ≡ goto i (pc l) (on_lane l (λ x. record x { refs = x.refs + 1; stale = false }) s)
  unfolding enroll
  enroll_known i k pc s l e = rw (e, enroll)

  enroll_unknown :
      (i : ℕ) (k : K) (pc : ℕ → Pc K) (s : Locks K)
      → lookup dec k s.lanes ≡ none
      → enroll dec i k pc s ≡ s
  unfolding enroll
  enroll_unknown i k pc s e = rw (e, enroll)

  waiting-Inv :
      (i : ℕ) (k : K) (s : Locks K)
      → get_elem? s.threads i ≡ some idle
      → Inv dec s
      → Inv dec (enroll dec i k (waiting k) s)
  waiting-Inv i k s at v = elim (Option-cases (lookup dec k s.lanes)) [
    | inl e ↦ subst (Inv dec) (sym (enroll_unknown i k (waiting k) s e)) v
    | inr (l, e) ↦ subst (Inv dec) (sym (enroll_known i k (waiting k) s l e)) (
        move-Inv dec i idle (waiting k l) l (λ x. record x { refs = x.refs + 1; stale = false }) s
          at e (v.placed k l e) (λ m n. ground arith) (λ x h. ground arith) v)
  ]

  trying-Inv :
      (i : ℕ) (k : K) (s : Locks K)
      → get_elem? s.threads i ≡ some idle
      → Inv dec s
      → Inv dec (enroll dec i k (trying k) s)
  trying-Inv i k s at v = elim (Option-cases (lookup dec k s.lanes)) [
    | inl e ↦ subst (Inv dec) (sym (enroll_unknown i k (trying k) s e)) v
    | inr (l, e) ↦ subst (Inv dec) (sym (enroll_known i k (trying k) s l e)) (
        move-Inv dec i idle (trying k l) l (λ x. record x { refs = x.refs + 1; stale = false }) s at
          e (v.placed k l e) (λ m n. ground arith) (λ x h. ground arith) v)
  ]

  lock_waiting-Inv :
      (i : ℕ) (k : K) (l : ℕ) (x : Lane) (s : Locks K)
      → get_elem? s.threads i ≡ some (waiting k l)
      → get_elem? s.heap l ≡ some x
      → x.held ≡ false
      → Inv dec s
      → Inv dec (lock i k l s)
  unfolding lock
  lock_waiting-Inv i k l x s at has free v =
      let link : lookup dec k s.lanes ≡ some l =
        All-get (Linked dec s.lanes) s.threads i v.linked at in
      move-Inv dec i (waiting k l) (inside k l) l (λ y. record y { held = true }) s at link
        (v.placed k l link) (λ m n. ground arith) (λ y h. ground arith) v

  lock_trying-Inv :
      (i : ℕ) (k : K) (l : ℕ) (x : Lane) (s : Locks K)
      → get_elem? s.threads i ≡ some (trying k l)
      → get_elem? s.heap l ≡ some x
      → x.held ≡ false
      → Inv dec s
      → Inv dec (lock i k l s)
  unfolding lock
  lock_trying-Inv i k l x s at has free v =
      let link : lookup dec k s.lanes ≡ some l =
        All-get (Linked dec s.lanes) s.threads i v.linked at in
      move-Inv dec i (trying k l) (inside k l) l (λ y. record y { held = true }) s at link
        (v.placed k l link) (λ m n. ground arith) (λ y h. ground arith) v

  -- Taking out of the count, whatever the goroutine was counted for.
  unenroll-Inv :
      (i l : ℕ) (p q : Pc K) (s : Locks K)
      → get_elem? s.threads i ≡ some p
      → Linked dec s.lanes q
      → Within (length s.heap) q
      → ((m : ℕ) → l ≢ m → (refs_of m p ≡ refs_of m q) × (holds_of m p ≡ holds_of m q))
      → refs_of l p ≡ 1
      → refs_of l q ≡ 0
      → holds_of l p ≡ holds_of l q
      → Inv dec s
      → Inv dec (unenroll i l q s)
  unfolding unenroll
  unenroll-Inv i l p q s at link room elsewhere counted out held v =
      move-Inv dec i p q l (λ x. record x { refs = x.refs - 1 }) s at link room elsewhere
        (λ x h.
          (omega (arith, v.refs_exact l x h, le-total (refs_of l) s.threads i at), omega arith))
        v

  drop :
      (k : K) (l : ℕ) (s : Locks K) (x : Lane)
      → get_elem? s.heap l ≡ some x
      → (x.refs == 0 && x.stale) ≡ true
      → drop_stale dec k l s ≡ record s { lanes = delete dec k s.lanes }
  unfolding drop_stale
  drop k l s x has b = rw (has, drop_stale) (rw b)

  keep :
      (k : K) (l : ℕ) (s : Locks K) (x : Lane)
      → get_elem? s.heap l ≡ some x
      → (x.refs == 0 && x.stale) ≡ false
      → drop_stale dec k l s ≡ s
  unfolding drop_stale
  keep k l s x has b = rw (has, drop_stale) (rw b)

  release_known :
      (i : ℕ) (k : K) (s : Locks K) (l : ℕ)
      → lookup dec k s.lanes ≡ some l
      → release_map dec i k s ≡ drop_stale dec k l (unenroll i l (leaving l) s)
  unfolding release_map
  release_known i k s l e = rw (e, release_map)

  drop_stale-Inv :
      (k : K) (l : ℕ) (s : Locks K)
      → lookup dec k s.lanes ≡ some l
      → Inv dec s
      → Inv dec (drop_stale dec k l s)
  drop_stale-Inv k l s at v =
      let (x, has) = get_some s.heap l (v.placed k l at) in
      elim (Bool-cases (x.refs == 0 && x.stale)) [
        | inl b ↦
            subst (Inv dec) (sym (drop k l s x has b))
              (delete-Inv dec k l s x at has (ground arith) v)
        | inr b ↦ subst (Inv dec) (sym (keep k l s x has b)) v
      ]

  pub link_of :
      (i : ℕ) (pc : Pc K) (s : Locks K)
      → get_elem? s.threads i ≡ some pc
      → Inv dec s
      → Linked dec s.lanes pc
  link_of i pc s at v = All-get (Linked dec s.lanes) s.threads i v.linked at

  lanes-unenroll : (i l : ℕ) (q : Pc K) (s : Locks K) → (unenroll i l q s).lanes ≡ s.lanes
  unfolding unenroll
  lanes-unenroll i l q s = refl

  try_undo-Inv :
      (i : ℕ) (k : K) (l : ℕ) (s : Locks K)
      → get_elem? s.threads i ≡ some (backing k l)
      → Inv dec s
      → Inv dec (try_undo dec i k l s)
  unfolding try_undo
  try_undo-Inv i k l s at v =
      let link : lookup dec k s.lanes ≡ some l = link_of i (backing k l) s at v in
      drop_stale-Inv k l (unenroll i l idle s) link (
        unenroll-Inv i l (backing k l) idle s at tt tt (λ m n. ground arith) (ground arith) refl
          refl v)

  release_map-Inv :
      (i : ℕ) (k : K) (l : ℕ) (s : Locks K)
      → get_elem? s.threads i ≡ some (inside k l)
      → Inv dec s
      → Inv dec (release_map dec i k s)
  release_map-Inv i k l s at v =
      let link : lookup dec k s.lanes ≡ some l = link_of i (inside k l) s at v in
      subst (Inv dec) (sym (release_known i k s l link)) (
        drop_stale-Inv k l (unenroll i l (leaving l) s) (unfold unenroll in link) (
          unenroll-Inv i l (inside k l) (leaving l) s at tt (v.placed k l link)
            (λ m n. ground arith) (ground arith) refl refl v))

  release_unlock-Inv :
      (i l : ℕ) (s : Locks K)
      → get_elem? s.threads i ≡ some (leaving l)
      → Inv dec s
      → Inv dec (release_unlock i l s)
  unfolding release_unlock
  release_unlock-Inv i l s at v =
      move-Inv dec i (leaving l) idle l (λ y. record y { held = false }) s at tt tt
        (λ m n. ground arith)
        (λ x h. ground (arith, v.held_exact l x h, le-total (holds_of l) s.threads i at)) v

  threads-ensure : (k : K) (s : Locks K) → (ensure dec k s).threads ≡ s.threads
  unfolding ensure
  threads-ensure k s = ground arith

  -- Every step of every goroutine keeps the invariant: a lane counts exactly the goroutines that have
  -- entered it by Acquire or TryAcquire and have not taken themselves out again; its mutex is held by
  -- exactly one goroutine if it is locked, which may be one that Release no longer counts, and by none
  -- if not; and whoever is counted in a lane uses the one that the map holds for its session.
  pub Step-Inv : {s t : Locks K} → Step dec s t → Inv dec s → Inv dec t
  Step-Inv {s} (acquire_enters i k at) v =
      unfold acquire_enter in
      waiting-Inv i k (ensure dec k s) (ap (λ ts. get_elem? ts i) (threads-ensure k s) ∙ at)
        (ensure-Inv dec k s v)
  Step-Inv {s} (acquire_locks i k l x at has free) v = lock_waiting-Inv i k l x s at has free v
  Step-Inv {s} (release_maps i k l at) v = release_map-Inv i k l s at v
  Step-Inv {s} (release_unlocks i l at) v = release_unlock-Inv i l s at v
  Step-Inv {s} (try_enters i k at) v =
      unfold try_enter in
      trying-Inv i k (ensure dec k s) (ap (λ ts. get_elem? ts i) (threads-ensure k s) ∙ at)
        (ensure-Inv dec k s v)
  Step-Inv {s} (try_locks i k l x at has free) v = lock_trying-Inv i k l x s at has free v
  Step-Inv {s} (try_fails i k l x at has busy) v =
      let link : lookup dec k s.lanes ≡ some l = link_of i (trying k l) s at v in
      unfold try_fail in
      goto-Inv dec i (trying k l) (backing k l) s at link (v.placed k l link) (λ m. (refl, refl)) v
  Step-Inv {s} (try_undoes i k l at) v = try_undo-Inv i k l s at v
  Step-Inv {s} (cleans active) v = unfold cleanup in sweep_all-Inv dec active s.lanes s v

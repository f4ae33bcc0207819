-- ===== src/Router/Lane.antt =====
-- internal/router/lane.go: one lock for each session, made on demand and removed when stale. Lanes
-- live on a heap, since a goroutine keeps its pointer while the map changes. A method is split
-- where the source gives up the global mutex, and `Pc` says where a goroutine stands.
pub mod Measures
pub mod Invariant
pub mod Fresh
pub mod Cleaning
pub mod Sweeping
pub mod Separation
pub mod Steps
pub mod Exclusion
use sclaw.Prelude.{
  ℕ, zero, suc, ◌+◌, ◌-◌, ◌≡◌, Bool, true, false, ◌&&◌, Option, none, some, List, [], ◌∷◌, ◌++◌,
  map, ◌==◌, if◌then◌else◌, length, get_elem?, modify, replicate,
}
use sclaw.Prelude.Dict.{Dict, Entry, lookup, insert, delete}

-- lane; `held` is its mutex.
pub record Lane : Type 0 where
  pub held : Bool
  pub refs : ℕ
  pub stale : Bool

-- A goroutine: outside; counted in a lane and waiting for it; between Acquire and Release; past
-- the map part of Release, about to unlock; counted by TryAcquire; refused by it.
pub data Pc (K : Type 0) : Type 0 where
  idle : Pc K
  waiting inside trying backing : K → ℕ → Pc K
  leaving : ℕ → Pc K

-- LaneLock, with the heap of its lanes and the goroutines that use it.
pub record Locks (K : Type 0) : Type 0 where
  pub lanes : Dict K ℕ
  pub heap : List Lane
  pub threads : List (Pc K)

module _ {K : Type 0} where
  -- Goroutine `i` goes on to `pc`.
  unfoldable pub goto : ℕ → Pc K → Locks K → Locks K
  goto i pc s = record s { threads = modify s.threads i (λ _. pc) }

  unfoldable pub on_lane : ℕ → (Lane → Lane) → Locks K → Locks K
  on_lane l f s = record s { heap = modify s.heap l f }

  -- The last line of Acquire, and a TryLock that succeeds.
  unfoldable pub lock : ℕ → K → ℕ → Locks K → Locks K
  unfolding goto on_lane
  lock i k l s = goto i (inside k l) (on_lane l (λ x. record x { held = true }) s)

  -- A TryLock that fails.
  unfoldable pub try_fail : ℕ → K → ℕ → Locks K → Locks K
  unfolding goto
  try_fail i k l s = goto i (backing k l) s

  -- `ln.refs--`, with the goroutine's next point.
  unfoldable pub unenroll : ℕ → ℕ → Pc K → Locks K → Locks K
  unfolding goto on_lane
  unenroll i l pc s = goto i pc (on_lane l (λ x. record x { refs = x.refs - 1 }) s)

  -- The last line of Release.
  unfoldable pub release_unlock : ℕ → ℕ → Locks K → Locks K
  unfolding goto on_lane
  release_unlock i l s = goto i idle (on_lane l (λ x. record x { held = false }) s)

module _ {K : Type 0} (dec : Discrete K) where
  -- The lane of a key, made if there is none.
  unfoldable pub ensure : K → Locks K → Locks K
  ensure k s = elim (lookup dec k s.lanes) [
    | some l ↦ s
    | none ↦ record s {
      lanes = insert dec k (length s.heap) s.lanes;
      heap = s.heap ++ record { held = false; refs = 0; stale = false } ∷ [];
    }
  ]

  -- `ln.refs++; ln.stale = false`, on the lane that the map holds, and the next point of `i`.
  unfoldable pub enroll : ℕ → K → (ℕ → Pc K) → Locks K → Locks K
  unfolding goto on_lane
  enroll i k pc s = elim (lookup dec k s.lanes) [
    | none ↦ s
    | some l ↦ goto i (pc l) (on_lane l (λ x. record x { refs = x.refs + 1; stale = false }) s)
  ]

  -- Acquire and TryAcquire up to the release of the global mutex.
  unfoldable pub acquire_enter : ℕ → K → Locks K → Locks K
  unfolding ensure enroll
  acquire_enter i k s = enroll i k (waiting k) (ensure k s)

  unfoldable pub try_enter : ℕ → K → Locks K → Locks K
  unfolding ensure enroll
  try_enter i k s = enroll i k (trying k) (ensure k s)

  -- `if ln.refs == 0 && ln.stale { delete(l.lanes, key) }`.
  unfoldable pub drop_stale : K → ℕ → Locks K → Locks K
  drop_stale k l s = elim (get_elem? s.heap l) [
    | none ↦ s
    | some x ↦ if x.refs == 0 && x.stale then record s { lanes = delete dec k s.lanes } else s
  ]

  -- The rest of TryAcquire after a failure.
  unfoldable pub try_undo : ℕ → K → ℕ → Locks K → Locks K
  unfolding unenroll drop_stale
  try_undo i k l s = drop_stale k l (unenroll i l idle s)

  -- Release up to the release of the global mutex; the lane is the one that the map holds.
  unfoldable pub release_map : ℕ → K → Locks K → Locks K
  unfolding unenroll drop_stale goto
  release_map i k s = elim (lookup dec k s.lanes) [
    | none ↦ goto i idle s
    | some l ↦ drop_stale k l (unenroll i l (leaving l) s)
  ]

  -- One key of the loop of Cleanup.
  unfoldable pub sweep : (K → Bool) → K → Locks K → Locks K
  unfolding on_lane
  sweep active k s = elim (lookup dec k s.lanes) [
    | none ↦ s
    | some l ↦
        if active k
        then on_lane l (λ x. record x { stale = false }) s
        else elim (get_elem? s.heap l) [
          | none ↦ s
          | some x ↦
              let marked = on_lane l (λ y. record y { stale = true }) s in
              if x.refs == 0 then record marked { lanes = delete dec k marked.lanes } else marked
        ]
  ]

  unfoldable pub sweep_all : (K → Bool) → List (Entry K ℕ) → Locks K → Locks K
  unfolding sweep
  sweep_all active [] s = s
  sweep_all active (e ∷ es) s = sweep_all active es (sweep active e.key s)

  -- Cleanup
  unfoldable pub cleanup : (K → Bool) → Locks K → Locks K
  unfolding sweep_all
  cleanup active s = sweep_all active s.lanes s

  -- One step of one goroutine, between two points where another may run. Only a goroutine that is
  -- inside a session's lane calls Release, and a mutex is locked only while it is free.
  pub data Step (s : Locks K) : Locks K → Type 0 where
    acquire_enters :
        (i : ℕ) (k : K) → get_elem? s.threads i ≡ some idle → Step s (acquire_enter i k s)
    acquire_locks :
        (i : ℕ) (k : K) (l : ℕ) (x : Lane)
        → get_elem? s.threads i ≡ some (waiting k l)
        → get_elem? s.heap l ≡ some x
        → x.held ≡ false
        → Step s (lock i k l s)
    release_maps :
        (i : ℕ) (k : K) (l : ℕ)
        → get_elem? s.threads i ≡ some (inside k l)
        → Step s (release_map i k s)
    release_unlocks :
        (i l : ℕ) → get_elem? s.threads i ≡ some (leaving l) → Step s (release_unlock i l s)
    try_enters : (i : ℕ) (k : K) → get_elem? s.threads i ≡ some idle → Step s (try_enter i k s)
    try_locks :
        (i : ℕ) (k : K) (l : ℕ) (x : Lane)
        → get_elem? s.threads i ≡ some (trying k l)
        → get_elem? s.heap l ≡ some x
        → x.held ≡ false
        → Step s (lock i k l s)
    try_fails :
        (i : ℕ) (k : K) (l : ℕ) (x : Lane)
        → get_elem? s.threads i ≡ some (trying k l)
        → get_elem? s.heap l ≡ some x
        → x.held ≡ true
        → Step s (try_fail i k l s)
    try_undoes :
        (i : ℕ) (k : K) (l : ℕ)
        → get_elem? s.threads i ≡ some (backing k l)
        → Step s (try_undo i k l s)
    cleans : (active : K → Bool) → Step s (cleanup active s)

  pub data Reach (s : Locks K) : Locks K → Type 0 where
    here : Reach s s
    next : {t u : Locks K} → Reach s t → Step t u → Reach s u

-- NewLaneLock, with `n` goroutines outside.
unfoldable pub new_lane_lock : {K : Type 0} → ℕ → Locks K
new_lane_lock n = record { lanes = []; heap = []; threads = replicate n idle }

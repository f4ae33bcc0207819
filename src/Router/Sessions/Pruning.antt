-- ===== src/Router/Sessions/Pruning.antt =====
-- internal/router/store.go and pruning.go: what a pruning removes.
use sclaw.Prelude.{
  ℕ, ◌+◌, ◌-◌, ◌≤◌, ◌<◌, ◌≡◌, refl, ◌⊎◌, inl, inr, String, Bool, Option, none, some, ◌&&◌, ltb,
  arith, Bool-cases,
}
use sclaw.Prelude.Dict.{IsMap}
use sclaw.Router.Lane.{Locks, Reach, next, cleans, new_lane_lock}
use sclaw.Router.Lane.Exclusion.{Reach-Inv, new_lane_lock-Inv}
use sclaw.Router.Lane.Separation.{Reach-Separate}
use sclaw.Router.Lane.Sweeping.{CleanedAt, cleanup-CleanedAt}
use sclaw.Router.Sessions.{
  same, SessionKey, SessionKey-discrete, Session, SessionStore, prune_where, pruned_store, prune,
  prune_by_agent, is_idle, len, get_session, active_keys, LazyPruner, Others, found, clean_lanes,
  try_prune,
}
use sclaw.Router.Sessions.Bounds.{kept_unless, lookup-prune_where, length-prune_where}

-- The sessions that `goes` names are removed, the others stay as they are, and the number is theirs.
abbrev pub Removes : (Session → Bool) → SessionStore → SessionStore × ℕ → Type 0
Removes goes s (t, n) =
    ((k : SessionKey) → get_session k t ≡ kept_unless goes (get_session k s)) × (len t + n ≡ len s)

removes :
    (goes : Session → Bool) (s : SessionStore)
    → IsMap SessionKey-discrete s.sessions
    → Removes goes s (pruned_store s (prune_where goes s.sessions))
unfolding pruned_store get_session len
removes goes s m =
    ((λ k. lookup-prune_where goes k s.sessions m), length-prune_where goes s.sessions)

-- Prune removes exactly the sessions that have been idle for longer than the limit, changes no
-- other, and returns how many it has removed; PruneByAgent does so with the sessions of the agent.
pub prune-exact :
    (now max_idle : ℕ) (agent_id : String) (s : SessionStore)
    → IsMap SessionKey-discrete s.sessions
    → Removes (is_idle now max_idle) s (prune now max_idle s)
      × Removes
          (λ x. same x.agent_id agent_id && is_idle now max_idle x)
          s
          (prune_by_agent now agent_id max_idle s)
unfolding prune prune_by_agent
prune-exact now max_idle agent_id s m = (
  removes (is_idle now max_idle) s m,
  removes (λ x. same x.agent_id agent_id && is_idle now max_idle x) s m,
)

-- The lanes, if there are any, are in a state that LaneLock reaches.
abbrev pub Reached : Option (Locks SessionKey) → Type 0
Reached none = Unit
Reached (some lanes) = (n : ℕ) × Reach SessionKey-discrete (new_lane_lock n) lanes

-- The lane of every key is cleaned, by the sessions of the store.
abbrev pub Cleaned : SessionStore → Option (Locks SessionKey) → Option (Locks SessionKey) → Type 0
Cleaned store none none = Unit
Cleaned store none (some t) = ⊥
Cleaned store (some s) none = ⊥
Cleaned store (some s) (some t) =
    (k : SessionKey) → CleanedAt SessionKey-discrete (active_keys store) s t k

clean_lanes-Cleaned :
    (store : SessionStore) (o : Option (Locks SessionKey))
    → Reached o
    → Cleaned store o (clean_lanes store o) × Reached (clean_lanes store o)
unfolding clean_lanes
clean_lanes-Cleaned store none r = (tt, tt)
clean_lanes-Cleaned store (some lanes) (n, r) = (
  cleanup-CleanedAt SessionKey-discrete (active_keys store) lanes
      (Reach-Inv SessionKey-discrete (new_lane_lock-Inv SessionKey-discrete n) r)
      (Reach-Separate SessionKey-discrete n r),
  (n, next r (cleans (active_keys store))),
)

-- What TryPrune does.
abbrev pub Tried : ℕ → Others → Others → LazyPruner → Type 0
Tried now first second p =
    let (q, number) = try_prune now first second p in
    let (store, pruned) = prune now p.max_idle p.store in
    let (read, after, lanes) = found first second store p.lane_lock in
    ((now - p.last_run < p.interval) × (try_prune now first second p ≡ (p, 0)))
    ⊎ ((p.interval ≤ now - p.last_run)
        × Removes (is_idle now p.max_idle) p.store (store, number)
        × (q.store ≡ after)
        × (q.last_run ≡ now)
        × Cleaned read lanes q.lane_lock
        × Reached q.lane_lock)

-- TryPrune does nothing within the interval after its last run. Otherwise it prunes the store,
-- returns the number of the sessions that it has removed, remembers the time, and cleans the lanes,
-- whatever other goroutines do to the store and the lanes between Prune, ActiveKeys and Cleanup, if
-- what Cleanup finds is a state that LaneLock reaches: the lane of a session that ActiveKeys did
-- not list goes if nobody is counted in it, and stays, marked stale, if somebody is; the lane of a
-- listed session stays, not marked; and no lane comes. The lanes are again in such a state.
pub try_prune-cases :
    (now : ℕ) (first second : Others) (p : LazyPruner)
    → IsMap SessionKey-discrete p.store.sessions
    → Reached (found first second (prune now p.max_idle p.store).0 p.lane_lock).2
    → Tried now first second p
unfolding try_prune
try_prune-cases now first second p m r = elim (Bool-cases (ltb (now - p.last_run) p.interval)) [
  | inl b ↦ rw (b, try_prune) (inl (ground (arith, b), refl))
  | inr b ↦
      let at = found first second (prune now p.max_idle p.store).0 p.lane_lock in
      let (cleaned, reached) = clean_lanes-Cleaned at.0 at.2 r in
      rw (b, try_prune)
        (inr (
          ground (arith, b),
          (unfold prune in (removes (is_idle now p.max_idle) p.store m)),
          refl,
          refl,
          cleaned,
          reached,
        ))
]

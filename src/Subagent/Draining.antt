-- ===== src/Subagent/Draining.antt =====
-- internal/subagent/manager.go: the places of the sub-agents become free again.
use sclaw.Prelude.{
  ℕ, zero, suc, ◌≤◌, ◌<◌, ◌≡◌, refl, ap, inl, inr, false, none, some, List, [], ◌∷◌, String,
  get_elem?, modify, total, total-modify_at, total-cases, arith, ℤ, pos, negsuc, positive_or, leb,
}
use sclaw.Agent.Loop.{Response}
use sclaw.Subagent.{
  Manager, ManagerConfig, SpawnRequest, Run, Point, starting, looping, leaving, gone, new_manager,
  spawn, admit, crosses, on_agent, goto, leave, start_loop, return_loop, finish_agent, Step, starts,
  returns, leaves, Reach, here, next,
}
use sclaw.Subagent.Counting.{
  counts, effort, Counted, Step-Counted, Reach-Counted, limit_of, on_agent-runs,
}

Reach-trans : {s t u : Manager} → Reach s t → Reach t u → Reach s u
Reach-trans a here = a
Reach-trans a (next b st) = next (Reach-trans a b) st

effort_at : (r : Run) (p : Point) → r.point ≡ p → effort r ≡ effort (record r { point = p })
effort_at r p e = ap (λ x. effort (record r { point = x })) e

-- A step of a run that is not gone, which leaves it less to do.
abbrev Progress : Manager → Type 0
Progress s = (t : Manager) × Step s t × (total effort t.runs < total effort s.runs)

progress :
    (s : Manager) (i : ℕ) (r : Run) (p : Point)
    → get_elem? s.runs i ≡ some r
    → r.point ≡ p
    → 0 < effort (record r { point = p })
    → Response
    → Progress s
unfolding start_loop goto leave return_loop
progress s i r starting at e h resp = (
  start_loop i s,
  starts i r at e,
  omega (
    arith,
    effort_at r starting e,
    total-modify_at effort s.runs i (λ x. record x { point = looping }) at,
  ),
)
progress s i r looping at e h resp = (
  return_loop i r.agent_id 0 resp none s,
  returns i 0 r resp none at e,
  omega (
    arith,
    effort_at r looping e,
    total-modify_at effort s.runs i (λ x. record x { point = leaving }) at,
    same_runs,
  ),
)
  where
    same_runs :
        total effort (
          modify
            (on_agent r.agent_id (finish_agent s.settings.max_history 0 resp none) s).runs
            i
            (λ x. record x { point = leaving }))
        ≡ total effort (modify s.runs i (λ x. record x { point = leaving }))
    same_runs =
        ap (λ x. total effort (modify x i (λ y. record y { point = leaving })))
          (on_agent-runs r.agent_id (finish_agent s.settings.max_history 0 resp none) s)
progress s i r leaving at e h resp = (
  leave i s,
  leaves i r at e,
  omega (
    arith,
    effort_at r leaving e,
    total-modify_at effort s.runs i (λ x. record x { point = gone }) at,
  ),
)
progress s i r gone at e h resp = absurd (omega (arith, h))

counts-le-effort : (xs : List Run) → total counts xs ≤ total effort xs
counts-le-effort [] = omega arith
counts-le-effort (x ∷ xs) = omega (arith, at_most x.point, counts-le-effort xs)
  where
    at_most : (p : Point) → counts (record x { point = p }) ≤ effort (record x { point = p })
    at_most starting = omega arith
    at_most looping = omega arith
    at_most leaving = omega arith
    at_most gone = omega arith

drain :
    (limit n : ℕ) (s : Manager)
    → Response
    → total effort s.runs ≤ n
    → Counted limit s
    → (t : Manager) × Reach s t × Counted limit t × (t.active ≡ 0)
drain limit zero s resp h c = (s, here, c, omega (arith, h, c.counter, counts-le-effort s.runs))
drain limit (suc n) s resp h c = elim (total-cases effort s.runs) [
  | inl z ↦ (s, here, c, omega (arith, z, c.counter, counts-le-effort s.runs))
  | inr (i, r, at, w) ↦
      let (u, st, less) = progress s i r r.point at refl w resp in
      let (t, reached, d, z) =
        drain limit n u resp (omega (arith, h, less)) (Step-Counted limit st c) in
      (t, Reach-trans (next here st) reached, d, z)
]

positive : (z : ℤ) → 0 < positive_or z 5
positive (pos zero) = omega arith
positive (pos (suc n)) = omega arith
positive (negsuc n) = omega arith

free_place :
    (c : ManagerConfig) (t : Manager)
    → Counted (limit_of c) t
    → t.active ≡ 0
    → leb t.settings.max_concurrent t.active ≡ false
free_place c t d z = ground (arith, positive c.max_concurrent, d.configured, z)

spawn-admitted :
    (id : String) (now : ℕ) (req : SpawnRequest) (t : Manager)
    → req.is_sub_agent ≡ false
    → crosses req t.agents ≡ false
    → leb t.settings.max_concurrent t.active ≡ false
    → (spawn (inr id) now req t).1 ≡ inr id
unfolding spawn admit
spawn-admitted id now req t a b f = rw (a, spawn) (rw (b, spawn) (rw (f, spawn) refl))

-- From every reachable state the runs can go on, each loop returning, to a state in which no
-- sub-agent is counted; there Spawn takes every request that is not from a sub-agent and not
-- across sessions.
pub Reach-drain :
    (c : ManagerConfig) (resp : Response) {s : Manager}
    → Reach (new_manager c) s
    → (t : Manager) × Reach s t
      × (t.active ≡ 0)
      × ((id : String) (now : ℕ) (req : SpawnRequest)
          → req.is_sub_agent ≡ false
          → crosses req t.agents ≡ false
          → (spawn (inr id) now req t).1 ≡ inr id)
Reach-drain c resp {s} r =
    let (t, reached, d, z) =
      drain (limit_of c) (total effort s.runs) s resp (omega arith) (Reach-Counted c r) in
    (t, reached, z, λ id now req a b. spawn-admitted id now req t a b (free_place c t d z))

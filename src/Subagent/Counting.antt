-- ===== src/Subagent/Counting.antt =====
-- internal/subagent/manager.go: how many sub-agents run.
use sclaw.Prelude.{
  ℕ, ◌≤◌, ◌≡◌, refl, ap, ◌∙◌, ◌⊎◌, inl, inr, false, some, [], ◌∷◌, String, String-discrete, leb,
  get_elem?, total, total-modify_at, total-append, arith, Bool-cases, Option-cases, positive_or,
}
use sclaw.Prelude.Dict.{lookup}
use sclaw.Subagent.{
  admit, add_message, kill_agent, stop_agent, SubAgent, is_running, Manager, ManagerConfig,
  ManagerError, SpawnRequest, Run, Point, starting, looping, leaving, gone, new_manager,
  with_defaults, spawn, enter, crosses, on_agent, goto, leave, fail_start, start_loop, start_failed,
  finish_agent, return_loop, send, kill, stop, Step, spawns, starts_fail, starts, returns, leaves,
  sends, kills, stops, Reach, here, next, recursive_spawn, cross_session, max_concurrent_reached,
}

abbrev pub counts : Run → ℕ
counts r = elim r.point [ starting ↦ 1 | looping ↦ 1 | leaving ↦ 1 | gone ↦ 0 ]

-- The steps that a run has still to take, at most.
abbrev pub effort : Run → ℕ
effort r = elim r.point [ starting ↦ 3 | looping ↦ 2 | leaving ↦ 1 | gone ↦ 0 ]

-- The counter is the number of the runs that are not gone, and within the limit.
pub record Counted (limit : ℕ) (s : Manager) : Type 0 where
  pub counter : s.active ≡ total counts s.runs
  pub bounded : s.active ≤ limit
  pub configured : s.settings.max_concurrent ≡ limit

on_agent-Counted :
    (limit : ℕ) (id : String) (f : SubAgent → SubAgent) (s : Manager)
    → Counted limit s
    → Counted limit (on_agent id f s)
unfolding on_agent
on_agent-Counted limit id f s c = elim (Option-cases (lookup String-discrete id s.agents)) [
  | inl e ↦ rw (e, on_agent) c
  | inr (a, e) ↦
      rw (e, on_agent)
        (record { counter = c.counter; bounded = c.bounded; configured = c.configured })
]

pub on_agent-runs :
    (id : String) (f : SubAgent → SubAgent) (s : Manager) → (on_agent id f s).runs ≡ s.runs
unfolding on_agent
on_agent-runs id f s = elim (Option-cases (lookup String-discrete id s.agents)) [
  | inl e ↦ rw (e, on_agent) refl
  | inr (a, e) ↦ rw (e, on_agent) refl
]

-- A run that goes on and stays counted.
goto-Counted :
    (limit i : ℕ) (p : Point) (r : Run) (s : Manager)
    → get_elem? s.runs i ≡ some r
    → counts r ≡ counts (record r { point = p })
    → Counted limit s
    → Counted limit (goto i p s)
unfolding goto
goto-Counted limit i p r s at same c = record {
  counter =
      omega
        (arith, c.counter, same, total-modify_at counts s.runs i (λ x. record x { point = p }) at);
  bounded = c.bounded;
  configured = c.configured;
}

leave-Counted :
    (limit i : ℕ) (r : Run) (s : Manager)
    → get_elem? s.runs i ≡ some r
    → counts r ≡ 1
    → Counted limit s
    → Counted limit (leave i s)
unfolding leave goto
leave-Counted limit i r s at one c = record {
  counter =
      omega (
        arith,
        c.counter,
        one,
        total-modify_at counts s.runs i (λ x. record x { point = gone }) at,
      );
  bounded = omega (arith, c.bounded);
  configured = c.configured;
}

enter-Counted :
    (limit : ℕ) (id : String) (now : ℕ) (req : SpawnRequest) (s : Manager)
    → leb s.settings.max_concurrent s.active ≡ false
    → Counted limit s
    → Counted limit (enter id now req s)
unfolding enter
enter-Counted limit id now req s free c = record {
  counter = omega (
    arith,
    c.counter,
    total-append counts s.runs (
        record {
          agent_id = id;
          timeout = positive_or req.timeout s.settings.default_timeout;
          point = starting;
        }
        ∷ []),
  );
  bounded = ground (arith, free, c.configured, c.bounded);
  configured = c.configured;
}

-- Every way through Spawn: an error leaves the manager as it was.
pub data Spawned (id : String) (now : ℕ) (req : SpawnRequest) (s : Manager)
    : Manager × (ManagerError ⊎ String) → Type 0 where
  refused : (e : ManagerError) → Spawned id now req s (s, inl e)
  admitted :
      crosses req s.agents ≡ false
      → leb s.settings.max_concurrent s.active ≡ false
      → Spawned id now req s (enter id now req s, inr id)

pub spawn-cases :
    (id : String) (now : ℕ) (req : SpawnRequest) (s : Manager)
    → Spawned id now req s (spawn (inr id) now req s)
unfolding spawn admit
spawn-cases id now req s = elim (Bool-cases req.is_sub_agent) [
  | inl a ↦ rw (a, spawn) (refused recursive_spawn)
  | inr a ↦ elim (Bool-cases (crosses req s.agents)) [
    | inl b ↦ rw (a, spawn) (rw (b, spawn) (refused cross_session))
    | inr b ↦ elim (Bool-cases (leb s.settings.max_concurrent s.active)) [
      | inl c ↦ rw (a, spawn) (rw (b, spawn) (rw (c, spawn) (refused max_concurrent_reached)))
      | inr c ↦ rw (a, spawn) (rw (b, spawn) (rw (c, spawn) (admitted b c)))
    ]
  ]
]

spawned-Counted :
    (limit : ℕ) {id : String} {now : ℕ} {req : SpawnRequest} {s : Manager}
    {r : Manager × (ManagerError ⊎ String)}
    → Spawned id now req s r
    → Counted limit s
    → Counted limit r.0
spawned-Counted limit (refused e) c = c
spawned-Counted limit {id} {now} {req} {s} (admitted a b) c = enter-Counted limit id now req s b c

send-Counted :
    (limit : ℕ) (id content : String) (s : Manager)
    → Counted limit s
    → Counted limit (send id content s).0
unfolding send
send-Counted limit id content s c = elim (Option-cases (lookup String-discrete id s.agents)) [
  | inl e ↦ rw (e, send) c
  | inr (a, e) ↦ elim (Bool-cases (is_running a.status)) [
    | inl b ↦ rw (e, send) (rw (b, send) (on_agent-Counted limit id (add_message content) s c))
    | inr b ↦ rw (e, send) (rw (b, send) c)
  ]
]

kill-Counted :
    (limit : ℕ) (id : String) (now : ℕ) (s : Manager)
    → Counted limit s
    → Counted limit (kill id now s).0
unfolding kill
kill-Counted limit id now s c = elim (Option-cases (lookup String-discrete id s.agents)) [
  | inl e ↦ rw (e, kill) c
  | inr (a, e) ↦ elim (Bool-cases (is_running a.status)) [
    | inl b ↦ rw (e, kill) (rw (b, kill) (on_agent-Counted limit id (kill_agent now) s c))
    | inr b ↦ rw (e, kill) (rw (b, kill) c)
  ]
]

counts_at : (r : Run) (p : Point) → r.point ≡ p → counts r ≡ counts (record r { point = p })
counts_at r p e = ap (λ x. counts (record r { point = x })) e

-- A run's index and what stands there, after a write to an agent.
pub kept :
    (id : String) (f : SubAgent → SubAgent) (s : Manager) (i : ℕ) {r : Run}
    → get_elem? s.runs i ≡ some r
    → get_elem? (on_agent id f s).runs i ≡ some r
kept id f s i at = ap (λ x. get_elem? x i) (on_agent-runs id f s) ∙ at

pub Step-Counted : (limit : ℕ) {s t : Manager} → Step s t → Counted limit s → Counted limit t
unfolding fail_start start_loop return_loop stop
Step-Counted limit {s} (spawns id now req new) c =
    spawned-Counted limit (spawn-cases id now req s) c
Step-Counted limit {s} (starts_fail i now r e at p) c =
    leave-Counted limit i r (on_agent r.agent_id (start_failed now e) s)
      (kept r.agent_id (start_failed now e) s i at) (counts_at r starting p)
      (on_agent-Counted limit r.agent_id (start_failed now e) s c)
Step-Counted limit {s} (starts i r at p) c =
    goto-Counted limit i looping r s at (counts_at r starting p) c
Step-Counted limit {s} (returns i now r resp err at p) c =
    goto-Counted limit i leaving r
      (on_agent r.agent_id (finish_agent s.settings.max_history now resp err) s)
      (kept r.agent_id (finish_agent s.settings.max_history now resp err) s i at)
      (counts_at r looping p)
      (on_agent-Counted limit r.agent_id (finish_agent s.settings.max_history now resp err) s c)
Step-Counted limit {s} (leaves i r at p) c = leave-Counted limit i r s at (counts_at r leaving p) c
Step-Counted limit {s} (sends id content) c = send-Counted limit id content s c
Step-Counted limit {s} (kills id now) c = kill-Counted limit id now s c
Step-Counted limit {s} (stops id now) c = on_agent-Counted limit id (stop_agent now) s c

abbrev pub limit_of : ManagerConfig → ℕ
limit_of c = positive_or c.max_concurrent 5

-- In every reachable state, whatever the interleaving of Spawn, Send, Kill, Shutdown and the runs,
-- the counter is the number of the sub-agents whose run is not gone, and at most the limit.
pub Reach-Counted :
    (c : ManagerConfig) {s : Manager} → Reach (new_manager c) s → Counted (limit_of c) s
unfolding new_manager with_defaults
Reach-Counted c here = record { counter = refl; bounded = omega arith; configured = refl }
Reach-Counted c (next r st) = Step-Counted (limit_of c) st (Reach-Counted c r)

-- ===== src/Subagent/Starting.antt =====
-- internal/subagent/manager.go: which agents have a run whose loop is still being made.
use sclaw.Prelude.{
  ℕ, ◌≡◌, ◌≢◌, sym, ap, ◌∙◌, ◌⊎◌, inl, inr, Option-cases, Bool-cases, none, some, String,
  String-discrete, get_elem?, modify, get_elem?-modify_cases, get_elem?-append_cases, positive_or,
  List,
}
use sclaw.Prelude.Dict.{lookup}
use sclaw.Subagent.{
  SubAgent, is_running, Manager, ManagerError, SpawnRequest, Run, Point, starting, looping, leaving,
  gone, enter, on_agent, goto, leave, fail_start, start_loop, start_failed, finish_agent,
  return_loop, add_message, send, kill_agent, kill, stop_agent, stop, Step, spawns, starts_fail,
  starts, returns, leaves, sends, kills, stops,
}
use sclaw.Subagent.Counting.{Spawned, refused, admitted, spawn-cases, on_agent-runs}

-- Some run of the agent is at the making of its loop.
abbrev pub StartingIn : List Run → String → Type 0
StartingIn runs j =
    (i : ℕ) × ((r : Run) × (get_elem? runs i ≡ some r) × (r.point ≡ starting) × (r.agent_id ≡ j))

moved :
    (i : ℕ) (p : Point) (runs : List Run) (j : String)
    → p ≢ starting
    → StartingIn (modify runs i (λ x. record x { point = p })) j
    → StartingIn runs j
moved i p runs j n (k, (q, at, here, of)) =
    elim (get_elem?-modify_cases runs i k (λ x. record x { point = p }) at) [
      | inl (_, old) ↦ (k, (q, old, here, of))
      | inr (_, (x, _, is)) ↦ absurd (n (sym (ap (λ (y : Run). y.point) is) ∙ here))
    ]

written :
    (id : String) (f : SubAgent → SubAgent) (s : Manager) (j : String)
    → StartingIn (on_agent id f s).runs j
    → StartingIn s.runs j
written id f s j (k, (q, at, here, of)) =
    (k, (q, sym (ap (λ rs. get_elem? rs k) (on_agent-runs id f s)) ∙ at, here, of))

spawned :
    {id : String} {now : ℕ} {req : SpawnRequest} {s : Manager}
    {r : Manager × (ManagerError ⊎ String)}
    → Spawned id now req s r
    → lookup String-discrete id s.agents ≡ none
    → (j : String) {a : SubAgent} → lookup String-discrete j s.agents ≡ some a
    → StartingIn r.0.runs j
    → StartingIn s.runs j
unfolding enter
spawned (refused e) fresh j found w = w
spawned {id} {now} {req} {s} (admitted c free) fresh j found (k, (q, at, here, of)) =
    elim (get_elem?-append_cases s.runs
      (record {
        agent_id = id;
        timeout = positive_or req.timeout s.settings.default_timeout;
        point = starting;
      })
      k at) [
        | inl old ↦ (k, (q, old, here, of))
        | inr (_, is) ↦ absurd (unknown (ap (λ (y : Run). y.agent_id) is) of)
      ]
  where
    unknown : q.agent_id ≡ id → q.agent_id ≡ j → ⊥
    unknown e f = cc (e, f, found, fresh)

sent :
    (id content : String) (s : Manager) (j : String)
    → StartingIn (send id content s).0.runs j
    → StartingIn s.runs j
unfolding send
sent id content s j = elim (Option-cases (lookup String-discrete id s.agents)) [
  | inl e ↦ rw (e, send) (λ w. w)
  | inr (a, e) ↦ elim (Bool-cases (is_running a.status)) [
    | inl b ↦ rw (e, send) (rw (b, send) (written id (add_message content) s j))
    | inr b ↦ rw (e, send) (rw (b, send) (λ w. w))
  ]
]

ended :
    (id : String) (now : ℕ) (s : Manager) (j : String)
    → StartingIn (kill id now s).0.runs j
    → StartingIn s.runs j
unfolding kill
ended id now s j = elim (Option-cases (lookup String-discrete id s.agents)) [
  | inl e ↦ rw (e, kill) (λ w. w)
  | inr (a, e) ↦ elim (Bool-cases (is_running a.status)) [
    | inl b ↦ rw (e, kill) (rw (b, kill) (written id (kill_agent now) s j))
    | inr b ↦ rw (e, kill) (rw (b, kill) (λ w. w))
  ]
]

-- No step makes a known agent one whose loop is being made.
pub Step-StartingIn :
    {s t : Manager}
    → Step s t
    → (j : String) {a : SubAgent} → lookup String-discrete j s.agents ≡ some a
    → StartingIn t.runs j
    → StartingIn s.runs j
unfolding fail_start start_loop return_loop stop leave goto
Step-StartingIn {s} (spawns id now req new) j found w =
    spawned (spawn-cases id now req s) new j found w
Step-StartingIn {s} (starts_fail i now r e at p) j found w =
    written r.agent_id (start_failed now e) s j
      (moved i gone (on_agent r.agent_id (start_failed now e) s).runs j (λ x. cc) w)
Step-StartingIn {s} (starts i r at p) j found w = moved i looping s.runs j (λ x. cc) w
Step-StartingIn {s} (returns i now r resp err at p) j found w =
    written r.agent_id (finish_agent s.settings.max_history now resp err) s j (
      moved i leaving
        (on_agent r.agent_id (finish_agent s.settings.max_history now resp err) s).runs j (λ x. cc)
        w)
Step-StartingIn {s} (leaves i r at p) j found w = moved i gone s.runs j (λ x. cc) w
Step-StartingIn {s} (sends id content) j found w = sent id content s j w
Step-StartingIn {s} (kills id now) j found w = ended id now s j w
Step-StartingIn {s} (stops id now) j found w = written id (stop_agent now) s j w

-- ===== src/Subagent/Owners.antt =====
-- internal/subagent/manager.go: each run writes to an agent of its own.
use sclaw.Prelude.{
  ℕ, ◌≡◌, refl, sym, ap, ◌∙◌, subst, ◌⊎◌, inl, inr, Bool, true, false, none, some, List, [], ◌∷◌,
  ◌++◌, String, String-discrete, arith, Bool-cases, Option-cases, get_elem?, modify,
  get_elem?-modify_cases, get_elem?-append_cases, positive_or,
}
use sclaw.Prelude.Dict.{Dict, lookup, insert, lookup-insert_self, lookup-insert_ne}
use sclaw.Subagent.{
  SubAgent, Status, running, killed, is_running, Manager, ManagerConfig, ManagerError, SpawnRequest,
  Run, Point, starting, looping, leaving, gone, new_manager, new_agent, enter, on_agent, goto,
  leave, fail_start, start_loop, start_failed, finish_agent, return_loop, add_message, send,
  kill_agent, kill, stop_agent, stop, Step, spawns, starts_fail, starts, returns, leaves, sends,
  kills, stops, Reach, here, next,
}
use sclaw.Subagent.Counting.{Spawned, refused, admitted, spawn-cases}

-- The loop of a run, or its factory, has not returned.
abbrev pub waits : Point → Bool
waits starting = true
waits looping = true
waits leaving = false
waits gone = false

abbrev pub unfinished : Status → Bool
unfinished running = true
unfinished killed = true
unfinished _ = false

-- Each run has an agent of its own, which no loop has finished while the run waits for its loop.
pub record Owned (agents : Dict String SubAgent) (runs : List Run) : Type 0 where
  pub linked :
      (i : ℕ) (r : Run)
      → get_elem? runs i ≡ some r
      → (a : SubAgent) × (lookup String-discrete r.agent_id agents ≡ some a)
        × (waits r.point ≡ true → unfinished a.status ≡ true)
  pub distinct :
      (i j : ℕ) (r q : Run)
      → get_elem? runs i ≡ some r
      → get_elem? runs j ≡ some q
      → r.agent_id ≡ q.agent_id
      → i ≡ j

touch-Owned :
    (id : String) (a b : SubAgent) (agents : Dict String SubAgent) (runs : List Run)
    → lookup String-discrete id agents ≡ some a
    → (unfinished a.status ≡ true → unfinished b.status ≡ true)
    → Owned agents runs
    → Owned (insert String-discrete id b agents) runs
touch-Owned id a b agents runs at keep v = record {
  linked = λ i r e.
      let (x, found, w) = v.linked i r e in
      elim (String-discrete r.agent_id id) [
        | yes q ↦ (
          b,
          ap (λ k. lookup String-discrete k (insert String-discrete id b agents)) q
              ∙ lookup-insert_self String-discrete id b agents,
          λ h. keep (cc (w h, found, at, q)),
        )
        | no n ↦ (x, lookup-insert_ne String-discrete id r.agent_id b agents n ∙ found, w)
      ];
  distinct = v.distinct;
}

-- The id of what stands in the runs after a run has gone on.
before :
    (i : ℕ) (p : Point) (runs : List Run) (k : ℕ) {q : Run}
    → get_elem? (modify runs i (λ x. record x { point = p })) k ≡ some q
    → (x : Run) × (get_elem? runs k ≡ some x) × (q.agent_id ≡ x.agent_id)
before i p runs k {q} e = elim (get_elem?-modify_cases runs i k (λ x. record x { point = p }) e) [
  | inl (n, old) ↦ (q, old, refl)
  | inr (same, (x, old, is)) ↦
      (x, subst (λ l. get_elem? runs l ≡ some x) same old, ap (λ (y : Run). y.agent_id) is)
]

moved-distinct :
    (i : ℕ) (p : Point) (agents : Dict String SubAgent) (runs : List Run)
    → Owned agents runs
    → (k l : ℕ) (q o : Run) → get_elem? (modify runs i (λ x. record x { point = p })) k ≡ some q
    → get_elem? (modify runs i (λ x. record x { point = p })) l ≡ some o
    → q.agent_id ≡ o.agent_id
    → k ≡ l
moved-distinct i p agents runs v k l q o ek el same =
    let (x, ex, sx) = before i p runs k ek in
    let (y, ey, sy) = before i p runs l el in v.distinct k l x y ex ey (sym sx ∙ same ∙ sy)

goto-Owned :
    (i : ℕ) (p : Point) (r : Run) (agents : Dict String SubAgent) (runs : List Run)
    → get_elem? runs i ≡ some r
    → (waits p ≡ true → waits r.point ≡ true)
    → Owned agents runs
    → Owned agents (modify runs i (λ x. record x { point = p }))
goto-Owned i p r agents runs at keep v = record {
  linked = λ k q e. elim (get_elem?-modify_cases runs i k (λ x. record x { point = p }) e) [
    | inl (n, old) ↦ v.linked k q old
    | inr (same, (x, old, is)) ↦
        let (a, found, w) = v.linked i r at in
        let xr : x ≡ r = cc (old, at) in
        let to_r : q ≡ record r { point = p } = is ∙ ap (λ (y : Run). record y { point = p }) xr in
        (
          a,
          ap (λ (y : Run). lookup String-discrete y.agent_id agents) to_r ∙ found,
          λ h. w (keep (ap (λ (y : Run). waits y.point) (sym to_r) ∙ h)),
        )
  ];
  distinct = moved-distinct i p agents runs v;
}

-- A run whose loop has returned, and what is written to its agent.
end-Owned :
    (i : ℕ) (p : Point) (r : Run) (b : SubAgent) (agents : Dict String SubAgent) (runs : List Run)
    → get_elem? runs i ≡ some r
    → waits p ≡ false
    → Owned agents runs
    → Owned
        (insert String-discrete r.agent_id b agents)
        (modify runs i (λ x. record x { point = p }))
end-Owned i p r b agents runs at over v = record {
  linked = λ k q e. elim (get_elem?-modify_cases runs i k (λ x. record x { point = p }) e) [
    | inl (n, old) ↦
        let (a, found, w) = v.linked k q old in
        (
          a,
          lookup-insert_ne String-discrete r.agent_id q.agent_id b agents
                (λ s. n (v.distinct i k r q at old (sym s)))
              ∙ found,
          w,
        )
    | inr (same, (x, old, is)) ↦
        let xr : x ≡ r = cc (old, at) in
        let to_r : q ≡ record r { point = p } = is ∙ ap (λ (y : Run). record y { point = p }) xr in
        (
          b,
          ap
                (λ (y : Run).
                  lookup String-discrete y.agent_id (insert String-discrete r.agent_id b agents))
                to_r
              ∙ lookup-insert_self String-discrete r.agent_id b agents,
          λ h. absurd (contradiction (ap (λ (y : Run). waits y.point) (sym to_r) ∙ h)),
        )
  ];
  distinct = moved-distinct i p agents runs v;
}
  where
    contradiction : waits p ≡ true → ⊥
    contradiction h = cc (h, over)

enter-Owned :
    (id : String) (b : SubAgent) (new : Run) (agents : Dict String SubAgent) (runs : List Run)
    → lookup String-discrete id agents ≡ none
    → new.agent_id ≡ id
    → unfinished b.status ≡ true
    → Owned agents runs
    → Owned (insert String-discrete id b agents) (runs ++ new ∷ [])
enter-Owned id b new agents runs fresh named u v = record {
  linked = λ k q e. elim (get_elem?-append_cases runs new k e) [
    | inl old ↦
        let (a, found, w) = v.linked k q old in
        (
          a,
          lookup-insert_ne String-discrete id q.agent_id b agents
                (λ s. unknown q.agent_id a s found)
              ∙ found,
          w,
        )
    | inr (at, is) ↦ (
      b,
      ap (λ k. lookup String-discrete k (insert String-discrete id b agents))
            (ap (λ (y : Run). y.agent_id) is ∙ named)
          ∙ lookup-insert_self String-discrete id b agents,
      λ _. u,
    )
  ];
  distinct = λ k l q o ek el same. elim (get_elem?-append_cases runs new k ek) [
    | inl oldk ↦ elim (get_elem?-append_cases runs new l el) [
      | inl oldl ↦ v.distinct k l q o oldk oldl same
      | inr (_, is) ↦
          let (a, found, _) = v.linked k q oldk in
          absurd (unknown q.agent_id a (same ∙ ap (λ (y : Run). y.agent_id) is ∙ named) found)
    ]
    | inr (atk, isk) ↦ elim (get_elem?-append_cases runs new l el) [
      | inl oldl ↦
          let (a, found, _) = v.linked l o oldl in
          absurd (unknown o.agent_id a (sym same ∙ ap (λ (y : Run). y.agent_id) isk ∙ named) found)
      | inr (atl, _) ↦ atk ∙ sym atl
    ]
  ];
}
  where
    unknown : (k : String) (a : SubAgent) → k ≡ id → lookup String-discrete k agents ≡ some a → ⊥
    unknown k a s found = cc (s, found, fresh)

spawned-Owned :
    {id : String} {now : ℕ} {req : SpawnRequest} {s : Manager}
    {r : Manager × (ManagerError ⊎ String)}
    → Spawned id now req s r
    → lookup String-discrete id s.agents ≡ none
    → Owned s.agents s.runs
    → Owned r.0.agents r.0.runs
unfolding enter
spawned-Owned (refused e) fresh v = v
spawned-Owned {id} {now} {req} {s} (admitted c free) fresh v =
    enter-Owned id (new_agent id now req)
      (record {
        agent_id = id;
        timeout = positive_or req.timeout s.settings.default_timeout;
        point = starting;
      })
      s.agents s.runs fresh refl refl v

-- A write that takes no agent from the unfinished ones.
on_agent-Owned :
    (id : String) (f : SubAgent → SubAgent) (s : Manager)
    → ((a : SubAgent) → unfinished a.status ≡ true → unfinished (f a).status ≡ true)
    → Owned s.agents s.runs
    → Owned (on_agent id f s).agents (on_agent id f s).runs
unfolding on_agent
on_agent-Owned id f s keep v = elim (Option-cases (lookup String-discrete id s.agents)) [
  | inl e ↦ rw (e, on_agent) v
  | inr (a, e) ↦ rw (e, on_agent) (touch-Owned id a (f a) s.agents s.runs e (keep a) v)
]

ended-Owned :
    (i : ℕ) (p : Point) (r : Run) (f : SubAgent → SubAgent) (s : Manager)
    → get_elem? s.runs i ≡ some r
    → waits p ≡ false
    → Owned s.agents s.runs
    → Owned
        (on_agent r.agent_id f s).agents
        (modify (on_agent r.agent_id f s).runs i (λ x. record x { point = p }))
unfolding on_agent
ended-Owned i p r f s at over v =
    let (a, found, w) = v.linked i r at in
    rw (found, on_agent) (end-Owned i p r (f a) s.agents s.runs at over v)

send-Owned :
    (id content : String) (s : Manager)
    → Owned s.agents s.runs
    → Owned (send id content s).0.agents (send id content s).0.runs
unfolding send
send-Owned id content s v = elim (Option-cases (lookup String-discrete id s.agents)) [
  | inl e ↦ rw (e, send) v
  | inr (a, e) ↦ elim (Bool-cases (is_running a.status)) [
    | inl b ↦ rw (e, send) (rw (b, send) (on_agent-Owned id (add_message content) s (λ x h. h) v))
    | inr b ↦ rw (e, send) (rw (b, send) v)
  ]
]

kill-Owned :
    (id : String) (now : ℕ) (s : Manager)
    → Owned s.agents s.runs
    → Owned (kill id now s).0.agents (kill id now s).0.runs
unfolding kill
kill-Owned id now s v = elim (Option-cases (lookup String-discrete id s.agents)) [
  | inl e ↦ rw (e, kill) v
  | inr (a, e) ↦ elim (Bool-cases (is_running a.status)) [
    | inl b ↦ rw (e, kill) (rw (b, kill) (on_agent-Owned id (kill_agent now) s (λ x h. refl) v))
    | inr b ↦ rw (e, kill) (rw (b, kill) v)
  ]
]

pub Step-Owned : {s t : Manager} → Step s t → Owned s.agents s.runs → Owned t.agents t.runs
unfolding fail_start start_loop return_loop stop leave goto
Step-Owned {s} (spawns id now req new) v = spawned-Owned (spawn-cases id now req s) new v
Step-Owned {s} (starts_fail i now r e at p) v =
    ended-Owned i gone r (start_failed now e) s at refl v
Step-Owned {s} (starts i r at p) v = goto-Owned i looping r s.agents s.runs at (λ _. ap waits p) v
Step-Owned {s} (returns i now r resp err at p) v =
    ended-Owned i leaving r (finish_agent s.settings.max_history now resp err) s at refl v
Step-Owned {s} (leaves i r at p) v = goto-Owned i gone r s.agents s.runs at (λ h. cc) v
Step-Owned {s} (sends id content) v = send-Owned id content s v
Step-Owned {s} (kills id now) v = kill-Owned id now s v
Step-Owned {s} (stops id now) v = on_agent-Owned id (stop_agent now) s (λ x h. ground (arith, h)) v

pub Reach-Owned :
    (c : ManagerConfig) {s : Manager} → Reach (new_manager c) s → Owned s.agents s.runs
unfolding new_manager
Reach-Owned c here = record { linked = λ i r e. cc; distinct = λ i j r q e. cc }
Reach-Owned c (next r st) = Step-Owned st (Reach-Owned c r)

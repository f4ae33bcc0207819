-- ===== src/Subagent/Isolation.antt =====
-- internal/subagent/manager.go: the sub-agents of one parent are of one session.
use sclaw.Prelude.{
  ℕ, ◌≡◌, ◌≢◌, refl, sym, ap, ◌∙◌, ◌⊎◌, inl, inr, false, Option, none, some, [], ◌∷◌, String,
  String-discrete, arith, Bool-cases, Option-cases,
}
use sclaw.Prelude.Dict.{Dict, lookup, insert, lookup-insert_self, lookup-insert_ne}
use sclaw.Agent.Loop.{Response}
use sclaw.Subagent.{
  SubAgent, is_running, Manager, ManagerConfig, ManagerError, SpawnRequest, RunError, new_manager,
  spawn, new_agent, enter, other_session, crosses, on_agent, goto, leave, fail_start, start_loop,
  start_failed, finish_agent, return_loop, add_message, send, kill_agent, kill, stop_agent, stop,
  Step, spawns, starts_fail, starts, returns, leaves, sends, kills, stops, Reach, here, next,
}
use sclaw.Subagent.Counting.{Spawned, refused, admitted, spawn-cases}

on_agent-found :
    (id : String) (f : SubAgent → SubAgent) (s : Manager) {a : SubAgent}
    → lookup String-discrete id s.agents ≡ some a
    → (on_agent id f s).agents ≡ insert String-discrete id (f a) s.agents
unfolding on_agent
on_agent-found id f s e = rw (e, on_agent) refl

on_agent-missing :
    (id : String) (f : SubAgent → SubAgent) (s : Manager)
    → lookup String-discrete id s.agents ≡ none
    → (on_agent id f s).agents ≡ s.agents
unfolding on_agent
on_agent-missing id f s e = rw (e, on_agent) refl

pub lookup-insert :
    (j id : String) (v : SubAgent) (m : Dict String SubAgent) {b : SubAgent}
    → lookup String-discrete j (insert String-discrete id v m) ≡ some b
    → (lookup String-discrete j m ≡ some b) ⊎ ((j ≡ id) × (b ≡ v))
lookup-insert j id v m {b} h = elim (String-discrete j id) [
  | yes e ↦ inr (e, cc (h, lookup-insert_self String-discrete id v m, e))
  | no n ↦ inl (sym (lookup-insert_ne String-discrete id j v m n) ∙ h)
]

-- The agent that stands at an id comes from the one that stood there.
pub lookup-on_agent :
    (j id : String) (f : SubAgent → SubAgent) (s : Manager) {b : SubAgent}
    → lookup String-discrete j (on_agent id f s).agents ≡ some b
    → (a : SubAgent) × (lookup String-discrete j s.agents ≡ some a)
      × ((b ≡ a) ⊎ ((j ≡ id) × (b ≡ f a)))
lookup-on_agent j id f s {b} h = elim (Option-cases (lookup String-discrete id s.agents)) [
  | inl e ↦ (b, cc (h, on_agent-missing id f s e), inl refl)
  | inr (a, e) ↦ elim (lookup-insert j id (f a) s.agents (cc (h, on_agent-found id f s e))) [
    | inl old ↦ (b, old, inl refl)
    | inr (at, is) ↦ (a, cc (e, at), inr (at, is))
  ]
]

-- Where an agent comes from.
Origin : SubAgent → SubAgent → Type 0
Origin b a = (b.parent_id ≡ a.parent_id) × (b.session_id ≡ a.session_id)

-- Agents of one parent are of one session, those without a parent or a session aside.
Isolated : Dict String SubAgent → Type 0
Isolated m =
    (i j : String) (a b : SubAgent)
    → lookup String-discrete i m ≡ some a
    → lookup String-discrete j m ≡ some b
    → a.parent_id ≡ b.parent_id
    → a.parent_id ≢ ""
    → a.session_id ≢ ""
    → b.session_id ≢ ""
    → a.session_id ≡ b.session_id

other_session-false :
    (req : SpawnRequest) (m : Dict String SubAgent) (j : String) {a : SubAgent}
    → other_session req m ≡ false
    → lookup String-discrete j m ≡ some a
    → a.parent_id ≡ req.parent_id
    → a.session_id ≢ ""
    → a.session_id ≡ req.session_id
unfolding other_session lookup
other_session-false req [] j {a} h e p n = cc
other_session-false req (x ∷ m) j {a} h e p n = ground (arith, other_session-false req m j {a = a})

crosses-false :
    (req : SpawnRequest) (m : Dict String SubAgent) (j : String) {a : SubAgent}
    → crosses req m ≡ false
    → lookup String-discrete j m ≡ some a
    → a.parent_id ≡ req.parent_id
    → req.parent_id ≢ ""
    → a.session_id ≢ ""
    → req.session_id ≢ ""
    → a.session_id ≡ req.session_id
unfolding crosses
crosses-false req m j {a} h e p n k r = ground (arith, other_session-false req m j {a = a})

-- What an operation on agents leaves to come from agents that were there.
From : Manager → Manager → Type 0
From s t =
    (j : String) (b : SubAgent)
    → lookup String-discrete j t.agents ≡ some b
    → (a : SubAgent) × (lookup String-discrete j s.agents ≡ some a) × Origin b a

From-Isolated : (s t : Manager) → From s t → Isolated s.agents → Isolated t.agents
unfolding From Isolated Origin
From-Isolated s t from v i j a b ha hb p n m k =
    let (x, hx, ox) = from i a ha in
    let (y, hy, oy) = from j b hb in
    let e : x.session_id ≡ y.session_id =
      v i j x y hx hy (cc (p, ox.0, oy.0)) (λ z. n (ox.0 ∙ z)) (λ z. m (ox.1 ∙ z))
        (λ z. k (oy.1 ∙ z)) in
    ox.1 ∙ e ∙ sym oy.1

on_agent-From :
    (id : String) (f : SubAgent → SubAgent) (s : Manager)
    → ((a : SubAgent) → Origin (f a) a)
    → From s (on_agent id f s)
unfolding From Origin
on_agent-From id f s keep j b h =
    let (a, e, w) = lookup-on_agent j id f s h in
    (
      a,
      e,
      elim w [
        | inl is ↦ (ap (λ (x : SubAgent). x.parent_id) is, ap (λ (x : SubAgent). x.session_id) is)
        | inr (at, is) ↦ (
          ap (λ (x : SubAgent). x.parent_id) is ∙ (keep a).0,
          ap (λ (x : SubAgent). x.session_id) is ∙ (keep a).1,
        )
      ],
    )

enter-Isolated :
    (id : String) (now : ℕ) (req : SpawnRequest) (s : Manager)
    → crosses req s.agents ≡ false
    → Isolated s.agents
    → Isolated (enter id now req s).agents
unfolding enter Isolated
enter-Isolated id now req s c v i j a b ha hb p n m k =
    elim (lookup-insert i id (new_agent id now req) s.agents ha) [
      | inl ea ↦ elim (lookup-insert j id (new_agent id now req) s.agents hb) [
        | inl eb ↦ v i j a b ea eb p n m k
        | inr (_, eb) ↦
            let bp : b.parent_id ≡ req.parent_id = ap (λ (x : SubAgent). x.parent_id) eb in
            let bs : b.session_id ≡ req.session_id = ap (λ (x : SubAgent). x.session_id) eb in
            crosses-false req s.agents i c ea (p ∙ bp) (λ z. n (p ∙ bp ∙ z)) m (λ z. k (bs ∙ z))
            ∙ sym bs
      ]
      | inr (_, ea) ↦ elim (lookup-insert j id (new_agent id now req) s.agents hb) [
        | inl eb ↦
            let qa : a.parent_id ≡ req.parent_id = ap (λ (x : SubAgent). x.parent_id) ea in
            let sa : a.session_id ≡ req.session_id = ap (λ (x : SubAgent). x.session_id) ea in
            sa
            ∙ sym (
                crosses-false req s.agents j c eb (sym p ∙ qa) (λ z. n (qa ∙ z)) k
                  (λ z. m (sa ∙ z)))
        | inr (_, eb) ↦ cc (ea, eb)
      ]
    ]

From-self : (s : Manager) → From s s
unfolding From Origin
From-self s j b e = (b, e, (refl, refl))

finish_agent-Origin :
    (n now : ℕ) (resp : Response) (err : Option RunError) (a : SubAgent)
    → Origin (finish_agent n now resp err a) a
unfolding finish_agent Origin
finish_agent-Origin n now resp err a = ground (arith, err)

stop_agent-Origin : (now : ℕ) (a : SubAgent) → Origin (stop_agent now a) a
unfolding Origin
stop_agent-Origin now a = ground arith

send-From : (id content : String) (s : Manager) → From s (send id content s).0
unfolding send
send-From id content s = elim (Option-cases (lookup String-discrete id s.agents)) [
  | inl e ↦ rw (e, send) (From-self s)
  | inr (a, e) ↦ elim (Bool-cases (is_running a.status)) [
    | inl b ↦
        rw (e, send)
          (rw (b, send)
            (on_agent-From id (add_message content) s (λ x. unfold Origin in (refl, refl))))
    | inr b ↦ rw (e, send) (rw (b, send) (From-self s))
  ]
]

kill-From : (id : String) (now : ℕ) (s : Manager) → From s (kill id now s).0
unfolding kill
kill-From id now s = elim (Option-cases (lookup String-discrete id s.agents)) [
  | inl e ↦ rw (e, kill) (From-self s)
  | inr (a, e) ↦ elim (Bool-cases (is_running a.status)) [
    | inl b ↦
        rw (e, kill)
          (rw (b, kill) (on_agent-From id (kill_agent now) s (λ x. unfold Origin in (refl, refl))))
    | inr b ↦ rw (e, kill) (rw (b, kill) (From-self s))
  ]
]

spawned-Isolated :
    {id : String} {now : ℕ} {req : SpawnRequest} {s : Manager}
    {r : Manager × (ManagerError ⊎ String)}
    → Spawned id now req s r
    → Isolated s.agents
    → Isolated r.0.agents
spawned-Isolated (refused e) v = v
spawned-Isolated {id} {now} {req} {s} (admitted c free) v = enter-Isolated id now req s c v

Step-Isolated : {s t : Manager} → Step s t → Isolated s.agents → Isolated t.agents
unfolding fail_start start_loop return_loop stop leave goto
Step-Isolated {s} (spawns id now req new) v = spawned-Isolated (spawn-cases id now req s) v
Step-Isolated {s} (starts_fail i now r e at p) v =
    From-Isolated s (on_agent r.agent_id (start_failed now e) s)
      (on_agent-From r.agent_id (start_failed now e) s (λ x. unfold Origin in (refl, refl))) v
Step-Isolated {s} (starts i r at p) v = v
Step-Isolated {s} (returns i now r resp err at p) v =
    From-Isolated s (on_agent r.agent_id (finish_agent s.settings.max_history now resp err) s)
      (on_agent-From r.agent_id (finish_agent s.settings.max_history now resp err) s
        (finish_agent-Origin s.settings.max_history now resp err))
      v
Step-Isolated {s} (leaves i r at p) v = v
Step-Isolated {s} (sends id content) v =
    From-Isolated s (send id content s).0 (send-From id content s) v
Step-Isolated {s} (kills id now) v = From-Isolated s (kill id now s).0 (kill-From id now s) v
Step-Isolated {s} (stops id now) v =
    From-Isolated s (on_agent id (stop_agent now) s)
      (on_agent-From id (stop_agent now) s (stop_agent-Origin now)) v

-- A request that crosses sessions is refused.
spawned-refused :
    {id : String} {now : ℕ} {req : SpawnRequest} {s : Manager}
    {r : Manager × (ManagerError ⊎ String)}
    → Spawned id now req s r
    → crosses req s.agents ≢ false
    → (e : ManagerError) × (r ≡ (s, inl e))
spawned-refused (refused e) n = (e, refl)
spawned-refused (admitted c free) n = absurd (n c)

-- In every reachable state, two sub-agents of one parent, both spawned with a session and a
-- parent, are of the same session; and Spawn refuses, with an error and no change of the manager,
-- each request of that parent that names another session.
pub Reach-Isolated :
    (c : ManagerConfig) {s : Manager}
    → Reach (new_manager c) s
    → (i j : String) (a b : SubAgent) → lookup String-discrete i s.agents ≡ some a
    → lookup String-discrete j s.agents ≡ some b
    → a.parent_id ≡ b.parent_id
    → a.parent_id ≢ ""
    → a.session_id ≢ ""
    → b.session_id ≢ ""
    → (id : String) (now : ℕ) (req : SpawnRequest) → req.parent_id ≡ a.parent_id
    → req.session_id ≢ ""
    → req.session_id ≢ a.session_id
    → (a.session_id ≡ b.session_id) × ((e : ManagerError) × (spawn (inr id) now req s ≡ (s, inl e)))
unfolding Isolated
Reach-Isolated c {s} r i j a b ha hb p n m k id now req q w d = (
  go r i j a b ha hb p n m k,
  spawned-refused (spawn-cases id now req s)
      (λ f. d (sym (crosses-false req s.agents i f ha (sym q) (λ z. n (sym q ∙ z)) m w))),
)
  where
    go : {s : Manager} → Reach (new_manager c) s → Isolated s.agents
    go here = unfold Isolated new_manager lookup in (λ i j a b ha. cc)
    go (next q st) = Step-Isolated st (go q)

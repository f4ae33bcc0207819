-- ===== src/Subagent/Finality.antt =====
-- internal/subagent/manager.go: a sub-agent that has ended stays as it is.
use sclaw.Prelude.{
  ℕ, ◌≡◌, refl, sym, ap, ◌∙◌, subst, ◌⊎◌, inl, inr, true, false, Option, none, some, String,
  String-discrete, Bool-cases, Option-cases, get_elem?,
}
use sclaw.Prelude.Dict.{lookup, lookup-insert_self, lookup-insert_ne}
use sclaw.Agent.Loop.{Response}
use sclaw.Subagent.{
  SubAgent, Status, running, completed, failed, timed_out, killed, is_running, is_killed, Manager,
  ManagerConfig, ManagerError, SpawnRequest, Run, RunError, new_manager, new_agent, enter, on_agent,
  goto, leave, fail_start, start_loop, start_failed, finish_agent, return_loop, add_message, send,
  kill_agent, kill, stop_agent, stop, Step, spawns, starts_fail, starts, returns, leaves, sends,
  kills, stops, Reach, here, next,
}
use sclaw.Subagent.Counting.{Spawned, refused, admitted, spawn-cases}
use sclaw.Subagent.Starting.{StartingIn, Step-StartingIn}
use sclaw.Subagent.Owners.{waits, unfinished, Owned, Step-Owned, Reach-Owned}

-- What an agent that has ended becomes: itself, or, if it was killed while its loop was being made,
-- what the failure of the factory makes of it.
Settled : Manager → String → SubAgent → SubAgent → Type 0
Settled s j a b =
    (b ≡ a)
    ⊎ ((a.status ≡ killed)
        × StartingIn s.runs j
        × ((now : ℕ) × ((e : RunError) × (b ≡ start_failed now e a))))

Stays : Manager → String → SubAgent → Manager → Type 0
Stays s j a t = (b : SubAgent) × (lookup String-discrete j t.agents ≡ some b) × Settled s j a b

same-Stays :
    (j : String) (a : SubAgent) (s : Manager)
    → lookup String-discrete j s.agents ≡ some a
    → Stays s j a s
unfolding Stays Settled
same-Stays j a s e = (a, e, inl refl)

on_agent-Stays :
    (j id : String) (f : SubAgent → SubAgent) (s : Manager) (a : SubAgent)
    → lookup String-discrete j s.agents ≡ some a
    → (j ≡ id → Settled s j a (f a))
    → Stays s j a (on_agent id f s)
unfolding Stays on_agent Settled
on_agent-Stays j id f s a at h = elim (Option-cases (lookup String-discrete id s.agents)) [
  | inl e ↦ rw (e, on_agent) (a, at, inl refl)
  | inr (x, e) ↦ elim (String-discrete j id) [
    | no n ↦
        rw (e, on_agent) (a, lookup-insert_ne String-discrete id j (f x) s.agents n ∙ at, inl refl)
    | yes q ↦
        let xa : x ≡ a = cc (e, at, q) in
        rw (e, on_agent)
          (f a, cc (lookup-insert_self String-discrete id (f x) s.agents, q, ap f xa), h q)
  ]
]

killed_now : (st : Status) → is_running st ≡ false → unfinished st ≡ true → st ≡ killed
killed_now running h u = cc
killed_now completed h u = cc
killed_now failed h u = cc
killed_now timed_out h u = cc
killed_now killed h u = refl

-- The agent of a run that waits for its loop has been killed if it has ended.
of_run :
    (s : Manager) (i : ℕ) (r : Run) (j : String) (a : SubAgent)
    → Owned s.agents s.runs
    → get_elem? s.runs i ≡ some r
    → waits r.point ≡ true
    → lookup String-discrete j s.agents ≡ some a
    → is_running a.status ≡ false
    → j ≡ r.agent_id
    → a.status ≡ killed
of_run s i r j a v at w found over q =
    let (x, there, u) = v.linked i r at in
    let xa : x ≡ a = cc (there, found, q) in
    killed_now a.status over (subst (λ (y : SubAgent). unfinished y.status ≡ true) xa (u w))

finish_agent_killed :
    (n now : ℕ) (resp : Response) (err : Option RunError) (a : SubAgent)
    → a.status ≡ killed
    → finish_agent n now resp err a ≡ a
unfolding finish_agent
finish_agent_killed n now resp err a k = rw (ap is_killed k, finish_agent) refl

stop_agent_over : (now : ℕ) (a : SubAgent) → is_running a.status ≡ false → stop_agent now a ≡ a
stop_agent_over now a h = rw h refl

send-Stays :
    (id content : String) (s : Manager) (j : String) (a : SubAgent)
    → lookup String-discrete j s.agents ≡ some a
    → is_running a.status ≡ false
    → Stays s j a (send id content s).0
unfolding send
send-Stays id content s j a at over = elim (Option-cases (lookup String-discrete id s.agents)) [
  | inl e ↦ rw (e, send) (same-Stays j a s at)
  | inr (x, e) ↦ elim (Bool-cases (is_running x.status)) [
    | inl b ↦
        rw (e, send)
          (rw (b, send)
            (on_agent-Stays j id (add_message content) s a at
              (λ q. let xa : x ≡ a = cc (at, e, q) in absurd (clash x xa b))))
    | inr b ↦ rw (e, send) (rw (b, send) (same-Stays j a s at))
  ]
]
  where
    clash : (x : SubAgent) → x ≡ a → is_running x.status ≡ true → ⊥
    clash x xa b = cc (ap (λ (y : SubAgent). is_running y.status) xa, b, over)

kill-Stays :
    (id : String) (now : ℕ) (s : Manager) (j : String) (a : SubAgent)
    → lookup String-discrete j s.agents ≡ some a
    → is_running a.status ≡ false
    → Stays s j a (kill id now s).0
unfolding kill
kill-Stays id now s j a at over = elim (Option-cases (lookup String-discrete id s.agents)) [
  | inl e ↦ rw (e, kill) (same-Stays j a s at)
  | inr (x, e) ↦ elim (Bool-cases (is_running x.status)) [
    | inl b ↦
        rw (e, kill)
          (rw (b, kill)
            (on_agent-Stays j id (kill_agent now) s a at
              (λ q. let xa : x ≡ a = cc (at, e, q) in absurd (clash x xa b))))
    | inr b ↦ rw (e, kill) (rw (b, kill) (same-Stays j a s at))
  ]
]
  where
    clash : (x : SubAgent) → x ≡ a → is_running x.status ≡ true → ⊥
    clash x xa b = cc (ap (λ (y : SubAgent). is_running y.status) xa, b, over)

spawned-Stays :
    {id : String} {now : ℕ} {req : SpawnRequest} {s : Manager}
    {r : Manager × (ManagerError ⊎ String)}
    → Spawned id now req s r
    → lookup String-discrete id s.agents ≡ none
    → (j : String) (a : SubAgent) → lookup String-discrete j s.agents ≡ some a
    → Stays s j a r.0
unfolding enter
spawned-Stays {id} {now} {req} {s} (refused e) fresh j a at = same-Stays j a s at
spawned-Stays {id} {now} {req} {s} (admitted c free) fresh j a at =
    unfold Stays Settled in
    (
      a,
      lookup-insert_ne String-discrete id j (new_agent id now req) s.agents (λ q. unknown q) ∙ at,
      inl refl,
    )
  where
    unknown : j ≡ id → ⊥
    unknown q = cc (q, at, fresh)

Step-Stays :
    {s t : Manager}
    → Step s t
    → Owned s.agents s.runs
    → (j : String) (a : SubAgent) → lookup String-discrete j s.agents ≡ some a
    → is_running a.status ≡ false
    → Stays s j a t
unfolding fail_start start_loop return_loop stop leave goto Stays
Step-Stays {s} (spawns id now req new) v j a at over =
    spawned-Stays (spawn-cases id now req s) new j a at
Step-Stays {s} (starts_fail i now r e held p) v j a at over =
    on_agent-Stays j r.agent_id (start_failed now e) s a at (λ q.
      unfold Settled in
      (inr (
        of_run s i r j a v held (ap waits p) at over q,
        (i, (r, held, p, sym q)),
        (now, (e, refl)),
      )))
Step-Stays {s} (starts i r held p) v j a at over = same-Stays j a s at
Step-Stays {s} (returns i now r resp err held p) v j a at over =
    on_agent-Stays j r.agent_id (finish_agent s.settings.max_history now resp err) s a at (λ q.
      unfold Settled in
      (inl (
        finish_agent_killed s.settings.max_history now resp err a
          (of_run s i r j a v held (ap waits p) at over q))))
Step-Stays {s} (leaves i r held p) v j a at over = same-Stays j a s at
Step-Stays {s} (sends id content) v j a at over = send-Stays id content s j a at over
Step-Stays {s} (kills id now) v j a at over = kill-Stays id now s j a at over
Step-Stays {s} (stops id now) v j a at over =
    on_agent-Stays j id (stop_agent now) s a at
      (λ q. unfold Settled in (inl (stop_agent_over now a over)))

Settled-trans :
    (s t : Manager) (j : String) (a b d : SubAgent)
    → (StartingIn t.runs j → StartingIn s.runs j)
    → Settled s j a b
    → Settled t j b d
    → Settled s j a d
unfolding Settled
Settled-trans s t j a b d back (inl ab) (inl bd) = inl (bd ∙ ab)
Settled-trans s t j a b d back (inl ab) (inr (k, at, (now, (e, f)))) = inr (
  ap (λ (y : SubAgent). y.status) (sym ab) ∙ k,
  back at,
  (now, (e, f ∙ ap (start_failed now e) ab)),
)
Settled-trans s t j a b d back (inr (k, at, (now, (e, f)))) (inl bd) =
    inr (k, at, (now, (e, bd ∙ f)))
Settled-trans s t j a b d back (inr (k, at, (now, (e, f)))) (inr (l, _, _)) =
    absurd (cc (ap (λ (y : SubAgent). y.status) f, l))

Settled-over :
    (s : Manager) (j : String) (a b : SubAgent)
    → Settled s j a b
    → is_running a.status ≡ false
    → is_running b.status ≡ false
unfolding Settled
Settled-over s j a b (inl ab) over = ap (λ (y : SubAgent). is_running y.status) ab ∙ over
Settled-over s j a b (inr (k, at, (now, (e, f)))) over =
    ap (λ (y : SubAgent). is_running y.status) f

-- A sub-agent that no longer runs stays exactly as it is, its status, result and history included,
-- in every state that any steps lead to. One exception: an agent that was killed while its loop
-- was still being made, and whose factory then fails, gets the status failed, the error and the
-- time of that failure, and a canceled context, and nothing else of it changes.
pub ended_stays :
    (c : ManagerConfig) {s t : Manager}
    → Reach (new_manager c) s
    → Reach s t
    → (j : String) (a : SubAgent) → lookup String-discrete j s.agents ≡ some a
    → is_running a.status ≡ false
    → (b : SubAgent) × (lookup String-discrete j t.agents ≡ some b)
      × ((b ≡ a)
          ⊎ ((a.status ≡ killed)
              × StartingIn s.runs j
              × ((now : ℕ) × ((e : RunError) × (b ≡ start_failed now e a)))))
unfolding Settled Stays
ended_stays c {s} first r j a at over = let (v, back, (b, e, w)) = go r in (b, e, w)
  where
    go :
        {t : Manager}
        → Reach s t
        → Owned t.agents t.runs × (StartingIn t.runs j → StartingIn s.runs j) × Stays s j a t
    go here = (Reach-Owned c first, (λ x. x), same-Stays j a s at)
    go (next {t} q st) =
        let (v, back, (b, e, w)) = go q in
        let (d, found, x) = Step-Stays st v j b e (Settled-over s j a b w over) in
        (
          Step-Owned st v,
          (λ y. back (Step-StartingIn st j e y)),
          unfold Stays in (d, found, Settled-trans s t j a b d back w x),
        )

-- ===== src/Multiagent/Routing.antt =====
-- internal/multiagent/registry.go: Resolve against the configuration it was built from.
use mathlib.Core.List.{append-nil, append_assoc}
use sclaw.Prelude.{
  ℕ, ◌≡◌, ◌≢◌, refl, sym, ap, ◌∙◌, subst, ◌⊎◌, inl, inr, String, String-discrete, Bool, true, false,
  not, ◌&&◌, ◌||◌, Option, none, some, List, [], ◌∷◌, ◌++◌, length, get_elem?,
  get_elem?-append_left, get_elem?-append_at, get_elem?-lt, arith, Bool-cases, is_yes,
  if◌then◌else◌,
}
use sclaw.Prelude.Dict.{Dict, lookup, lookup-insert_self, lookup-insert_ne}
use sclaw.Message.{InboundMessage}
use sclaw.Multiagent.{
  AgentEntry, ThreadRouteKey, ThreadRouteKey-discrete, same, Registry, positions, push_index,
  push_all, thread_keys, RegistryError, add_agent, with_default, add_agents, empty_registry,
  new_registry, first_agent, or_else, or_default, matched, resolve,
}

abbrev pub member : {K : Type 0} → Discrete K → K → List K → Bool
member dec k [] = false
member dec k (j ∷ ks) = is_yes (dec k j) || member dec k ks

-- The first agent, in the order of declaration, that satisfies a test.
abbrev pub first_with : (AgentEntry → Bool) → List AgentEntry → Option String
first_with test [] = none
first_with test (e ∷ es) = if test e then some e.id else first_with test es

-- The default agent of a configuration: the last that is declared.
abbrev pub default_of : String → List AgentEntry → String
default_of id [] = id
default_of id (e ∷ es) = default_of (if e.routing.is_default then e.id else id) es

-- The agent that a configuration names for a message, without any index: by the sender, then the
-- thread, the chat and the channel.
abbrev pub named_for : List AgentEntry → InboundMessage → Option String
named_for es m = or_else (first_with (λ e. member String-discrete m.sender.id e.routing.users) es) (
    or_else
      (if same m.thread_id ""
        then none
        else first_with
            (λ e.
              member ThreadRouteKey-discrete
                (record { chat_id = m.chat.id; thread_id = m.thread_id })
                (thread_keys e.routing.threads))
            es)
      (or_else (first_with (λ e. member String-discrete m.chat.id e.routing.groups) es)
        (first_with (λ e. member String-discrete m.channel e.routing.channels) es)))

first_with-append :
    (test : AgentEntry → Bool) (es : List AgentEntry) (e : AgentEntry)
    → first_with test (es ++ e ∷ [])
      ≡ or_else (first_with test es) (if test e then some e.id else none)
first_with-append test [] e = refl
first_with-append test (x ∷ es) e = ground (arith, first_with-append test es e)

module _ {K : Type 0} (dec : Discrete K) (keys : AgentEntry → List K) where
  -- What a push of the keys of one agent does at a key.
  Pushed : ℕ → K → List K → List ℕ → List ℕ → Type 0
  Pushed idx k ks old new =
      ((member dec k ks ≡ false) × (new ≡ old))
      ⊎ ((member dec k ks ≡ true) × ((more : List ℕ) × (new ≡ old ++ idx ∷ more)))

  positions-push_index_self :
      (idx : ℕ) (k : K) (index : Dict K (List ℕ))
      → positions dec k (push_index dec idx k index) ≡ positions dec k index ++ idx ∷ []
  unfolding push_index
  positions-push_index_self idx k index =
      ap (λ (o : Option (List ℕ)). elim o [ none ↦ [] | some is ↦ is ])
        (lookup-insert_self dec k (positions dec k index ++ idx ∷ []) index)

  positions-push_index_ne :
      (idx : ℕ) (k j : K) (index : Dict K (List ℕ))
      → k ≢ j
      → positions dec k (push_index dec idx j index) ≡ positions dec k index
  unfolding push_index
  positions-push_index_ne idx k j index n =
      ap (λ (o : Option (List ℕ)). elim o [ none ↦ [] | some is ↦ is ])
        (lookup-insert_ne dec j k (positions dec j index ++ idx ∷ []) index n)

  push_all-Pushed :
      (idx : ℕ) (k : K) (ks : List K) (index : Dict K (List ℕ))
      → Pushed idx k ks (positions dec k index) (positions dec k (push_all dec idx ks index))
  unfolding push_all Pushed
  push_all-Pushed idx k [] index = inl (refl, refl)
  push_all-Pushed idx k (j ∷ ks) index =
      after_one (dec k j) (push_all-Pushed idx k ks (push_index dec idx j index))
    where
      pushed :
          k ≡ j → positions dec k (push_index dec idx j index) ≡ positions dec k index ++ idx ∷ []
      pushed q =
          subst
            (λ x. positions dec k (push_index dec idx x index) ≡ positions dec k index ++ idx ∷ [])
            q (positions-push_index_self idx k index)

      after_one :
          (d : Dec (k ≡ j))
          → Pushed idx k ks
              (positions dec k (push_index dec idx j index))
              (positions dec k (push_all dec idx ks (push_index dec idx j index)))
          → ((is_yes d || member dec k ks ≡ false)
              × (positions dec k (push_all dec idx ks (push_index dec idx j index))
                  ≡ positions dec k index))
            ⊎ ((is_yes d || member dec k ks ≡ true)
                × ((more : List ℕ) × (positions dec k
                        (push_all dec idx ks (push_index dec idx j index))
                      ≡ positions dec k index ++ idx ∷ more)))
      after_one (no n) (inl (m, e)) = inl (m, e ∙ positions-push_index_ne idx k j index n)
      after_one (no n) (inr (m, (more, e))) =
          inr (m, (more, e ∙ ap (λ x. x ++ idx ∷ more) (positions-push_index_ne idx k j index n)))
      after_one (yes q) (inl (m, e)) = inr (refl, ([], e ∙ pushed q))
      after_one (yes q) (inr (m, (more, e))) = inr (
        refl,
        (
          idx ∷ more,
          e
              ∙ ap (λ x. x ++ idx ∷ more) (pushed q)
              ∙ append_assoc (positions dec k index) (idx ∷ []) (idx ∷ more),
        ),
      )

  -- The first position of a key is that of the first agent that has it.
  Indexed : List AgentEntry → Dict K (List ℕ) → Type 0
  Indexed agents index =
      (k : K)
      → ((positions dec k index ≡ []) × (first_with (λ e. member dec k (keys e)) agents ≡ none))
        ⊎ ((i : ℕ) × (is : List ℕ) × (x : AgentEntry) × (positions dec k index ≡ i ∷ is)
            × (get_elem? agents i ≡ some x)
            × (first_with (λ e. member dec k (keys e)) agents ≡ some x.id))

  add-Indexed :
      (e : AgentEntry) (agents : List AgentEntry) (index : Dict K (List ℕ))
      → Indexed agents index
      → Indexed (agents ++ e ∷ []) (push_all dec (length agents) (keys e) index)
  unfolding Indexed
  add-Indexed e agents index v k =
      step (v k) (unfold Pushed in (push_all-Pushed (length agents) k (keys e) index))
    where
      step :
          ((positions dec k index ≡ []) × (first_with (λ e. member dec k (keys e)) agents ≡ none))
            ⊎ ((i : ℕ) × (is : List ℕ) × (x : AgentEntry) × (positions dec k index ≡ i ∷ is)
                × (get_elem? agents i ≡ some x)
                × (first_with (λ e. member dec k (keys e)) agents ≡ some x.id))
          → ((member dec k (keys e) ≡ false)
              × (positions dec k (push_all dec (length agents) (keys e) index)
                  ≡ positions dec k index))
            ⊎ ((member dec k (keys e) ≡ true)
                × ((more : List ℕ) × (positions dec k (push_all dec (length agents) (keys e) index)
                      ≡ positions dec k index ++ length agents ∷ more)))
          → ((positions dec k (push_all dec (length agents) (keys e) index) ≡ [])
              × (first_with (λ e. member dec k (keys e)) (agents ++ e ∷ []) ≡ none))
            ⊎ ((i : ℕ) × (is : List ℕ) × (x : AgentEntry) × (positions dec k
                    (push_all dec (length agents) (keys e) index)
                  ≡ i ∷ is)
                × (get_elem? (agents ++ e ∷ []) i ≡ some x)
                × (first_with (λ e. member dec k (keys e)) (agents ++ e ∷ []) ≡ some x.id))
      step (inl (p, f)) (inl (m, q)) =
          inl
            (q ∙ p, first_with-append (λ e. member dec k (keys e)) agents e ∙ ground (arith, f, m))
      step (inl (p, f)) (inr (m, (more, q))) = inr (
        length agents,
        more,
        e,
        q ∙ ap (λ x. x ++ length agents ∷ more) p,
        get_elem?-append_at agents e,
        first_with-append (λ e. member dec k (keys e)) agents e ∙ ground (arith, f, m),
      )
      step (inr (i, is, x, p, at, f)) (inl (m, q)) = inr (
        i,
        is,
        x,
        q ∙ p,
        get_elem?-append_left agents (e ∷ []) i (get_elem?-lt agents i at) ∙ at,
        first_with-append (λ e. member dec k (keys e)) agents e ∙ ground (arith, f),
      )
      step (inr (i, is, x, p, at, f)) (inr (m, (more, q))) = inr (
        i,
        is ++ length agents ∷ more,
        x,
        q ∙ ap (λ y. y ++ length agents ∷ more) p,
        get_elem?-append_left agents (e ∷ []) i (get_elem?-lt agents i at) ∙ at,
        first_with-append (λ e. member dec k (keys e)) agents e ∙ ground (arith, f),
      )

  first_agent-Indexed :
      (agents : List AgentEntry) (index : Dict K (List ℕ)) (k : K)
      → Indexed agents index
      → first_agent agents (positions dec k index) ≡ first_with (λ e. member dec k (keys e)) agents
  unfolding first_agent Indexed
  first_agent-Indexed agents index k v = elim (v k) [
    | inl (p, f) ↦ ap (first_agent agents) p ∙ sym f
    | inr (i, is, x, p, at, f) ↦
        ap (first_agent agents) p
        ∙ ap (λ (o : Option AgentEntry). elim o [ none ↦ none | some y ↦ some y.id ]) at
        ∙ sym f
  ]

-- A registry in the making, for the agents that it has so far.
record Built (es : List AgentEntry) (r : Registry) : Type 0 where
  listed : r.agents ≡ es
  users : Indexed String-discrete (λ e. e.routing.users) es r.user_index
  threads : Indexed ThreadRouteKey-discrete (λ e. thread_keys e.routing.threads) es r.thread_index
  groups : Indexed String-discrete (λ e. e.routing.groups) es r.group_index
  channels : Indexed String-discrete (λ e. e.routing.channels) es r.channel_index

add_agent-Built :
    (e : AgentEntry) (es : List AgentEntry) (r : Registry)
    → Built es r
    → Built (es ++ e ∷ []) (add_agent e r)
unfolding add_agent
add_agent-Built e es r b = record {
  listed = ap (λ x. x ++ e ∷ []) b.listed;
  users =
      subst
        (λ n.
          Indexed String-discrete (λ x. x.routing.users) (es ++ e ∷ [])
            (push_all String-discrete n e.routing.users r.user_index))
        (ap length (sym b.listed))
        (add-Indexed String-discrete (λ x. x.routing.users) e es r.user_index b.users);
  threads =
      subst
        (λ n.
          Indexed ThreadRouteKey-discrete (λ x. thread_keys x.routing.threads) (es ++ e ∷ [])
            (push_all ThreadRouteKey-discrete n (thread_keys e.routing.threads) r.thread_index))
        (ap length (sym b.listed))
        (add-Indexed ThreadRouteKey-discrete (λ x. thread_keys x.routing.threads) e es
          r.thread_index b.threads);
  groups =
      subst
        (λ n.
          Indexed String-discrete (λ x. x.routing.groups) (es ++ e ∷ [])
            (push_all String-discrete n e.routing.groups r.group_index))
        (ap length (sym b.listed))
        (add-Indexed String-discrete (λ x. x.routing.groups) e es r.group_index b.groups);
  channels =
      subst
        (λ n.
          Indexed String-discrete (λ x. x.routing.channels) (es ++ e ∷ [])
            (push_all String-discrete n e.routing.channels r.channel_index))
        (ap length (sym b.listed))
        (add-Indexed String-discrete (λ x. x.routing.channels) e es r.channel_index b.channels);
}

with_default-Built :
    (e : AgentEntry) (es : List AgentEntry) (r : Registry)
    → Built es r
    → Built es (with_default e r)
unfolding with_default
with_default-Built e es r b = elim (Bool-cases e.routing.is_default) [
  | inl d ↦
      rw (d, with_default)
        (record {
          listed = b.listed;
          users = b.users;
          threads = b.threads;
          groups = b.groups;
          channels = b.channels;
        })
  | inr d ↦ rw (d, with_default) b
]

-- What comes of building a registry for some agents, with a default.
abbrev Outcome : List AgentEntry → String → RegistryError ⊎ Registry → Type 0
Outcome es d (inl e) = Unit
Outcome es d (inr s) = Built es s × (s.default_agent ≡ d)

with_default-default_agent :
    (e : AgentEntry) (r : Registry)
    → (with_default e (add_agent e r)).default_agent
      ≡ (if e.routing.is_default then e.id else r.default_agent)
unfolding with_default add_agent
with_default-default_agent e r = ground arith

add_agents-Outcome :
    (done es : List AgentEntry) (r : Registry)
    → Built done r
    → Outcome (done ++ es) (default_of r.default_agent es) (add_agents es r)
unfolding add_agents
add_agents-Outcome done [] r b = (subst (λ l. Built l r) (sym (append-nil done)) b, refl)
add_agents-Outcome done (x ∷ es) r b =
    elim (Bool-cases (x.routing.is_default && not (same r.default_agent ""))) [
      | inl d ↦ rw (d, add_agents) tt
      | inr d ↦
          rw (d, add_agents)
            (subst
              (λ l.
                Outcome l (default_of (if x.routing.is_default then x.id else r.default_agent) es)
                  (add_agents es (with_default x (add_agent x r))))
              (append_assoc done (x ∷ []) es)
              (subst
                (λ i.
                  Outcome ((done ++ x ∷ []) ++ es) (default_of i es)
                    (add_agents es (with_default x (add_agent x r))))
                (with_default-default_agent x r)
                (add_agents-Outcome (done ++ x ∷ []) es (with_default x (add_agent x r)) (
                  with_default-Built x (done ++ x ∷ []) (add_agent x r)
                    (add_agent-Built x done r b)))))
    ]

empty-Built : Built [] empty_registry
empty-Built =
    unfold Indexed lookup in
    (record {
      listed = refl;
      users = λ k. inl (refl, refl);
      threads = λ k. inl (refl, refl);
      groups = λ k. inl (refl, refl);
      channels = λ k. inl (refl, refl);
    })

matched-Built :
    (es : List AgentEntry) (r : Registry) (m : InboundMessage)
    → Built es r
    → matched r m ≡ named_for es m
unfolding matched
matched-Built es r m b =
    let key : ThreadRouteKey = record { chat_id = m.chat.id; thread_id = m.thread_id } in
    let u =
      ap (λ l. first_agent l (positions String-discrete m.sender.id r.user_index)) b.listed
      ∙ first_agent-Indexed String-discrete (λ e. e.routing.users) es r.user_index m.sender.id
          b.users in
    let t =
      ap (λ l. first_agent l (positions ThreadRouteKey-discrete key r.thread_index)) b.listed
      ∙ first_agent-Indexed ThreadRouteKey-discrete (λ e. thread_keys e.routing.threads) es
          r.thread_index key b.threads in
    let g =
      ap (λ l. first_agent l (positions String-discrete m.chat.id r.group_index)) b.listed
      ∙ first_agent-Indexed String-discrete (λ e. e.routing.groups) es r.group_index m.chat.id
          b.groups in
    let c =
      ap (λ l. first_agent l (positions String-discrete m.channel r.channel_index)) b.listed
      ∙ first_agent-Indexed String-discrete (λ e. e.routing.channels) es r.channel_index m.channel
          b.channels in
    cascade u t g c
  where
    cascade :
        {a b c d a2 b2 c2 d2 : Option String}
        → a ≡ a2
        → b ≡ b2
        → c ≡ c2
        → d ≡ d2
        → or_else a (or_else (if same m.thread_id "" then none else b) (or_else c d))
          ≡ or_else a2 (or_else (if same m.thread_id "" then none else b2) (or_else c2 d2))
    cascade p q r s = cc (p, q, r, s)

-- A registry that NewRegistry builds sends each message to the agent that its configuration says:
-- the first declared one with a route for the sender, else for the thread, else for the chat, else
-- for the channel, and else the default, or to none.
pub resolve-named_for :
    (es : List AgentEntry) (r : Registry) (m : InboundMessage)
    → new_registry es ≡ inr r
    → resolve r m ≡ or_default (default_of "" es) (named_for es m)
unfolding new_registry resolve
resolve-named_for es r m e =
    let (b, d) =
      subst (λ o. Outcome es (default_of "" es) o) e
        (add_agents-Outcome [] es empty_registry empty-Built) in
    ap (or_default r.default_agent) (matched-Built es r m b)
    ∙ ap (λ x. or_default x (named_for es m)) d

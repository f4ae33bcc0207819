-- ===== src/Multiagent.antt =====
-- internal/multiagent/registry.go: which agent a message goes to. Of an agent's configuration only
-- its routing is modelled. The indices are maps to positions in the list of agents.
pub mod Routing
use Prim.Native.Char.{Char, code}
use Prim.Native.String.{◌++◌ as text_append, [] as empty_text, ◌∷◌ as text_cons}
use sclaw.Prelude.{
  ℕ, zero, suc, ◌+◌, ◌≡◌, refl, ap, String, Bool, true, false, not, ◌&&◌, ◌||◌, ◌==◌, Option, none,
  some, List, [], ◌∷◌, ◌++◌, ◌⊎◌, inl, inr, if◌then◌else◌, is_yes, String-discrete, length,
  get_elem?,
}
use sclaw.Prelude.Dict.{Dict, Entry, lookup, insert}
use sclaw.Message.{InboundMessage}

-- RoutingConfig
pub record RoutingConfig : Type 0 where
  pub users : List String
  pub threads : List String
  pub groups : List String
  pub channels : List String
  pub is_default : Bool

-- agentEntry; its order is its position.
pub record AgentEntry : Type 0 where
  pub id : String
  pub routing : RoutingConfig

-- threadRouteKey
pub record ThreadRouteKey : Type 0 where
  pub chat_id : String
  pub thread_id : String

unfoldable pub ThreadRouteKey-discrete : Discrete ThreadRouteKey
ThreadRouteKey-discrete k j = elim (String-discrete k.chat_id j.chat_id) [
  | no n ↦ no (λ e. n (ap (λ (x : ThreadRouteKey). x.chat_id) e))
  | yes a ↦ elim (String-discrete k.thread_id j.thread_id) [
    | no n ↦ no (λ e. n (ap (λ (x : ThreadRouteKey). x.thread_id) e))
    | yes b ↦ yes cc
  ]
]

abbrev pub same : String → String → Bool
same s t = is_yes (String-discrete s t)

-- strings.Cut(route, ":")
cut_colon : String → Option (String × String)
cut_colon empty_text = none
cut_colon (text_cons c s) =
    let rest = cut_colon s in
    if code c == 58
    then some (empty_text, s)
    else elim rest [ none ↦ none | some (before, after) ↦ some (text_cons c before, after) ]

-- parseThreadRoute
unfoldable pub parse_thread_route : String → Option ThreadRouteKey
unfolding cut_colon
parse_thread_route route = elim (cut_colon route) [
  | none ↦ none
  | some (chat_id, thread_id) ↦
      if same chat_id "" || same thread_id ""
      then none
      else some (record { chat_id = chat_id; thread_id = thread_id })
]

-- Registry
pub record Registry : Type 0 where
  pub agents : List AgentEntry
  pub user_index : Dict String (List ℕ)
  pub thread_index : Dict ThreadRouteKey (List ℕ)
  pub group_index : Dict String (List ℕ)
  pub channel_index : Dict String (List ℕ)
  pub default_agent : String

module _ {K : Type 0} (dec : Discrete K) where
  abbrev pub positions : K → Dict K (List ℕ) → List ℕ
  positions k index = elim (lookup dec k index) [ none ↦ [] | some is ↦ is ]

  -- index[k] = append(index[k], idx)
  unfoldable pub push_index : ℕ → K → Dict K (List ℕ) → Dict K (List ℕ)
  push_index idx k index = insert dec k (positions k index ++ idx ∷ []) index

  unfoldable pub push_all : ℕ → List K → Dict K (List ℕ) → Dict K (List ℕ)
  unfolding push_index
  push_all idx [] index = index
  push_all idx (k ∷ ks) index = push_all idx ks (push_index idx k index)

-- The routes of an agent that parse.
unfoldable pub thread_keys : List String → List ThreadRouteKey
unfolding parse_thread_route
thread_keys [] = []
thread_keys (route ∷ routes) =
    let rest = thread_keys routes in
    elim (parse_thread_route route) [ none ↦ rest | some key ↦ key ∷ rest ]

pub data RegistryError : Type 0 where
  duplicate_default : String → String → RegistryError
  no_matching_agent : RegistryError

-- One turn of the loop of NewRegistry, without the default.
unfoldable pub add_agent : AgentEntry → Registry → Registry
unfolding push_all thread_keys
add_agent e r =
    let idx = length r.agents in
    record r {
      agents = r.agents ++ e ∷ [];
      user_index = push_all String-discrete idx e.routing.users r.user_index;
      thread_index =
          push_all ThreadRouteKey-discrete idx (thread_keys e.routing.threads) r.thread_index;
      group_index = push_all String-discrete idx e.routing.groups r.group_index;
      channel_index = push_all String-discrete idx e.routing.channels r.channel_index;
    }

-- The default of an agent that is one.
unfoldable pub with_default : AgentEntry → Registry → Registry
with_default e r = if e.routing.is_default then record r { default_agent = e.id } else r

unfoldable pub add_agents : List AgentEntry → Registry → RegistryError ⊎ Registry
unfolding add_agent with_default
add_agents [] r = inr r
add_agents (e ∷ es) r =
    let rest = add_agents es (with_default e (add_agent e r)) in
    if e.routing.is_default && not (same r.default_agent "")
    then inl (duplicate_default r.default_agent e.id)
    else rest

abbrev pub empty_registry : Registry
empty_registry = record {
  agents = [];
  user_index = [];
  thread_index = [];
  group_index = [];
  channel_index = [];
  default_agent = "";
}

-- NewRegistry, of the agents in the order of their declaration.
unfoldable pub new_registry : List AgentEntry → RegistryError ⊎ Registry
unfolding add_agents
new_registry es = add_agents es empty_registry

-- `r.agents[indices[0]].ID`, if there is one.
unfoldable pub first_agent : List AgentEntry → List ℕ → Option String
first_agent agents [] = none
first_agent agents (i ∷ is) = elim (get_elem? agents i) [ none ↦ none | some e ↦ some e.id ]

abbrev pub or_else : Option String → Option String → Option String
or_else none o = o
or_else (some s) o = some s

-- The priorities of Resolve before the default.
unfoldable pub matched : Registry → InboundMessage → Option String
unfolding first_agent
matched r m = or_else (first_agent r.agents (positions String-discrete m.sender.id r.user_index)) (
    or_else
      (if same m.thread_id ""
        then none
        else first_agent r.agents (
            positions ThreadRouteKey-discrete
              (record { chat_id = m.chat.id; thread_id = m.thread_id }) r.thread_index))
      (or_else (first_agent r.agents (positions String-discrete m.chat.id r.group_index))
        (first_agent r.agents (positions String-discrete m.channel r.channel_index))))

-- What Resolve returns of a match and the default.
abbrev pub or_default : String → Option String → RegistryError ⊎ String
or_default default_agent (some id) = inr id
or_default default_agent none =
    if same default_agent "" then inl no_matching_agent else inr default_agent

-- Resolve
unfoldable pub resolve : Registry → InboundMessage → RegistryError ⊎ String
unfolding matched
resolve r m = or_default r.default_agent (matched r m)

-- AgentConfig
unfoldable pub agent_config : List AgentEntry → String → Option RoutingConfig
agent_config [] id = none
agent_config (e ∷ es) id =
    let rest = agent_config es id in if same e.id id then some e.routing else rest

-- AgentIDs
unfoldable pub agent_ids : List AgentEntry → List String
agent_ids [] = []
agent_ids (e ∷ es) = e.id ∷ agent_ids es

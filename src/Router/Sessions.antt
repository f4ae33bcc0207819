-- ===== src/Router/Sessions.antt =====
-- internal/router/store.go, session.go and pruning.go: the sessions and their pruning. The mutex
-- makes each method one step; the clock and the random id are arguments. Session metadata, whose
-- values are of any type, are left out.
pub mod Bounds
pub mod Pruning
use sclaw.Prelude.{
  ℕ, zero, suc, ◌+◌, ◌-◌, ◌≡◌, String, Bool, true, false, not, ◌&&◌, ◌||◌, Option, none, some, List,
  [], ◌∷◌, ltb, leb, if◌then◌else◌, is_yes, String-discrete, length, refl, ap,
}
use sclaw.Prelude.Dict.{Dict, Entry, lookup, insert, delete}
use sclaw.Provider.Types.{LlmMessage}
use sclaw.Router.Lane.{Locks, cleanup}

-- SessionKey
pub record SessionKey : Type 0 where
  pub channel : String
  pub chat_id : String
  pub thread_id : String

-- Keys are compared field by field.
unfoldable pub SessionKey-discrete : Discrete SessionKey
SessionKey-discrete k j = elim (String-discrete k.channel j.channel) [
  | no n ↦ no (λ e. n (ap (λ (x : SessionKey). x.channel) e))
  | yes a ↦ elim (String-discrete k.chat_id j.chat_id) [
    | no n ↦ no (λ e. n (ap (λ (x : SessionKey). x.chat_id) e))
    | yes b ↦ elim (String-discrete k.thread_id j.thread_id) [
      | no n ↦ no (λ e. n (ap (λ (x : SessionKey). x.thread_id) e))
      | yes c ↦ yes cc
    ]
  ]
]

-- Session
pub record Session : Type 0 where
  pub id : String
  pub key : SessionKey
  pub agent_id : String
  pub streaming_enabled : Bool
  pub created_at : ℕ
  pub last_active_at : ℕ
  pub history : List LlmMessage

-- InMemorySessionStore; its limit is never negative in the program.
pub record SessionStore : Type 0 where
  pub sessions : Dict SessionKey Session
  pub max_sessions : ℕ

-- NewInMemorySessionStore
abbrev pub new_session_store : SessionStore
new_session_store = record { sessions = []; max_sessions = 0 }

-- SetMaxSessions
unfoldable pub set_max_sessions : ℕ → SessionStore → SessionStore
set_max_sessions limit s = record s { max_sessions = limit }

abbrev pub new_session : String → SessionKey → ℕ → Session
new_session id key now = record {
  id = id;
  key = key;
  agent_id = "";
  streaming_enabled = false;
  created_at = now;
  last_active_at = now;
  history = [];
}

-- GetOrCreate; no session is nil.
unfoldable pub get_or_create :
    String → ℕ → SessionKey → SessionStore → SessionStore × (Option Session × Bool)
get_or_create id now key s = elim (lookup SessionKey-discrete key s.sessions) [
  | some session ↦ (s, (some session, false))
  | none ↦
      if ltb 0 s.max_sessions && leb s.max_sessions (length s.sessions)
      then (s, (none, false))
      else (
        record s { sessions = insert SessionKey-discrete key (new_session id key now) s.sessions },
        (some (new_session id key now), true),
      )
]

-- Get
unfoldable pub get_session : SessionKey → SessionStore → Option Session
get_session key s = lookup SessionKey-discrete key s.sessions

-- Touch
unfoldable pub touch : ℕ → SessionKey → SessionStore → SessionStore
touch now key s = elim (lookup SessionKey-discrete key s.sessions) [
  | none ↦ s
  | some session ↦ record s {
    sessions = insert SessionKey-discrete key (record session { last_active_at = now }) s.sessions;
  }
]

-- Delete
unfoldable pub delete_session : SessionKey → SessionStore → SessionStore
delete_session key s = record s { sessions = delete SessionKey-discrete key s.sessions }

-- `now.Sub(sess.LastActiveAt) > maxIdle`; a time in the future is not idle.
abbrev pub is_idle : ℕ → ℕ → Session → Bool
is_idle now max_idle session = ltb max_idle (now - session.last_active_at)

abbrev pub same : String → String → Bool
same s t = is_yes (String-discrete s t)

-- The loop of the pruning: the entries that stay, and the number of those deleted.
unfoldable pub prune_where :
    (Session → Bool) → Dict SessionKey Session → Dict SessionKey Session × ℕ
prune_where goes [] = ([], 0)
prune_where goes (e ∷ m) =
    let (rest, pruned) = prune_where goes m in
    if goes e.value then (rest, pruned + 1) else (e ∷ rest, pruned)

unfoldable pub pruned_store : SessionStore → Dict SessionKey Session × ℕ → SessionStore × ℕ
pruned_store s (m, n) = (record s { sessions = m }, n)

-- Prune
unfoldable pub prune : ℕ → ℕ → SessionStore → SessionStore × ℕ
unfolding prune_where pruned_store
prune now max_idle s = pruned_store s (prune_where (is_idle now max_idle) s.sessions)

-- PruneByAgent
unfoldable pub prune_by_agent : ℕ → String → ℕ → SessionStore → SessionStore × ℕ
unfolding prune_where pruned_store
prune_by_agent now agent_id max_idle s = pruned_store s (
    prune_where (λ session. same session.agent_id agent_id && is_idle now max_idle session)
      s.sessions)

-- Len
unfoldable pub len : SessionStore → ℕ
len s = length s.sessions

range_over : {A : Type 0} → (A → SessionKey → Session → A × Bool) → Dict SessionKey Session → A → A
range_over fn [] a = a
range_over fn (e ∷ m) a =
    let (b, more) = fn a e.key e.value in let rest = range_over fn m b in if more then rest else b

-- Range, of a callback that keeps a state.
unfoldable pub range_sessions :
    {A : Type 0} → (A → SessionKey → Session → A × Bool) → SessionStore → A → A
unfolding range_over
range_sessions fn s a = range_over fn s.sessions a

-- ActiveKeys, as the test of a key.
unfoldable pub active_keys : SessionStore → SessionKey → Bool
active_keys s key = elim (lookup SessionKey-discrete key s.sessions) [
  | none ↦ false
  | some session ↦ true
]

-- lazyPruner, with the store and the lanes that it points to. The clock does not go back.
pub record LazyPruner : Type 0 where
  pub store : SessionStore
  pub lane_lock : Option (Locks SessionKey)
  pub max_idle : ℕ
  pub interval : ℕ
  pub last_run : ℕ

-- newLazyPruner; five minutes in nanoseconds.
abbrev pub new_lazy_pruner : SessionStore → Option (Locks SessionKey) → ℕ → LazyPruner
new_lazy_pruner store lanes max_idle = record {
  store = store;
  lane_lock = lanes;
  max_idle = max_idle;
  interval = 300000000000;
  last_run = 0;
}

unfoldable pub clean_lanes : SessionStore → Option (Locks SessionKey) → Option (Locks SessionKey)
clean_lanes store none = none
clean_lanes store (some lanes) = some (cleanup SessionKey-discrete (active_keys store) lanes)

-- What other goroutines do to the store and the lanes, between two of the steps of TryPrune.
abbrev pub Others : Type 0
Others = SessionStore × Option (Locks SessionKey) → SessionStore × Option (Locks SessionKey)

-- What Cleanup finds: the store that ActiveKeys has read, and the lanes.
abbrev pub found :
    Others
    → Others
    → SessionStore
    → Option (Locks SessionKey)
    → SessionStore × SessionStore × Option (Locks SessionKey)
found first second store lanes =
    let (read, between) = first (store, lanes) in
    let (after, at) = second (read, between) in (read, after, at)

-- TryPrune. Prune, ActiveKeys and Cleanup each take their mutex: others act between them.
unfoldable pub try_prune : ℕ → Others → Others → LazyPruner → LazyPruner × ℕ
unfolding prune clean_lanes
try_prune now first second p =
    if ltb (now - p.last_run) p.interval
    then (p, 0)
    else let (store, pruned) = prune now p.max_idle p.store in
      let (read, after, lanes) = found first second store p.lane_lock in
      (record p { store = after; lane_lock = clean_lanes read lanes; last_run = now }, pruned)

-- ===== src/Subagent.antt =====
-- internal/subagent/manager.go and agent.go: sub-agents, each run by a goroutine of its own. A
-- method is split where the source gives up a mutex, and `Point` says where a run stands. What the
-- loop of an agent returns, the clock and the random ids are arguments; logging is left out, and
-- so is the error's text in a snapshot, which carries the error itself.
pub mod Counting
pub mod Draining
pub mod Isolation
pub mod Owners
pub mod Starting
pub mod Finality
use sclaw.Prelude.{
  ℕ, zero, suc, ◌+◌, ◌-◌, ◌≡◌, String, Bool, true, false, not, ◌&&◌, Option, none, some, List, [],
  ◌∷◌, ◌++◌, ◌⊎◌, inl, inr, ltb, leb, if◌then◌else◌, is_yes, String-discrete, length, get_elem?,
  modify, drop, ℤ, positive_or,
}
use sclaw.Prelude.Dict.{Dict, Entry, lookup, insert}
use sclaw.Provider.Types.{LlmMessage, user, assistant}
use sclaw.Agent.Loop.{Response}

pub data Status : Type 0 where
  running completed failed timed_out killed : Status

abbrev pub is_running : Status → Bool
is_running running = true
is_running _ = false

abbrev pub is_killed : Status → Bool
is_killed killed = true
is_killed _ = false

-- An error of the loop or of its factory; errors.Is tells a deadline from the others.
pub data RunError : Type 0 where
  deadline_exceeded : RunError
  other_error : String → RunError

-- SubAgent; `canceled` says that its context's cancel was called.
pub record SubAgent : Type 0 where
  pub id : String
  pub parent_id : String
  pub session_id : String
  pub status : Status
  pub system_prompt : String
  pub history : List LlmMessage
  pub result : Option Response
  pub error : Option RunError
  pub created_at : ℕ
  pub finished_at : Option ℕ
  pub canceled : Bool

-- Snap
pub record Snap : Type 0 where
  pub id : String
  pub parent_id : String
  pub status : Status
  pub system_prompt : String
  pub history : List LlmMessage
  pub result : Option Response
  pub error : Option RunError
  pub created_at : ℕ
  pub finished_at : Option ℕ

-- Snapshot
abbrev pub snapshot : SubAgent → Snap
snapshot a = record {
  id = a.id;
  parent_id = a.parent_id;
  status = a.status;
  system_prompt = a.system_prompt;
  history = a.history;
  result = a.result;
  error = a.error;
  created_at = a.created_at;
  finished_at = a.finished_at;
}

pub data ManagerError : Type 0 where
  recursive_spawn max_concurrent_reached cross_session not_found : ManagerError
  not_running already_finished : Status → ManagerError
  id_failed : String → ManagerError

pub record ManagerConfig : Type 0 where
  pub max_concurrent : ℤ
  pub default_timeout : ℤ
  pub max_history : ℤ

-- A ManagerConfig after `withDefaults`; five minutes in nanoseconds.
pub record Settings : Type 0 where
  pub max_concurrent : ℕ
  pub default_timeout : ℕ
  pub max_history : ℕ

unfoldable pub with_defaults : ManagerConfig → Settings
with_defaults c = record {
  max_concurrent = positive_or c.max_concurrent 5;
  default_timeout = positive_or c.default_timeout 300000000000;
  max_history = positive_or c.max_history 50;
}

-- Where the run of an agent stands: Spawn has unlocked the manager and makes the loop; the
-- goroutine is in the loop; the status is written; the agent is no longer counted.
pub data Point : Type 0 where
  starting looping leaving gone : Point

pub record Run : Type 0 where
  pub agent_id : String
  pub timeout : ℕ
  pub point : Point

-- Manager, with the runs it has begun.
pub record Manager : Type 0 where
  pub settings : Settings
  pub agents : Dict String SubAgent
  pub active : ℕ
  pub runs : List Run

-- NewManager
unfoldable pub new_manager : ManagerConfig → Manager
unfolding with_defaults
new_manager c = record { settings = with_defaults c; agents = []; active = 0; runs = [] }

pub record SpawnRequest : Type 0 where
  pub parent_id : String
  pub session_id : String
  pub system_prompt : String
  pub initial_message : String
  pub timeout : ℤ
  pub is_sub_agent : Bool

abbrev pub same : String → String → Bool
same s t = is_yes (String-discrete s t)

-- The loop of the cross-session validation: some agent of the parent is of another session.
unfoldable pub other_session : SpawnRequest → Dict String SubAgent → Bool
other_session req [] = false
other_session req (e ∷ agents) =
    let rest = other_session req agents in
    if same e.value.parent_id req.parent_id
      && not (same e.value.session_id "")
      && not (same e.value.session_id req.session_id)
    then true
    else rest

-- The cross-session validation.
unfoldable pub crosses : SpawnRequest → Dict String SubAgent → Bool
unfolding other_session
crosses req agents =
    not (same req.session_id "") && not (same req.parent_id "") && other_session req agents

abbrev message : String → LlmMessage
message content = record {
  role = user;
  content = content;
  content_parts = [];
  name = "";
  tool_id = "";
  tool_calls = [];
  is_error = false;
}

-- The agent that Spawn inserts.
abbrev pub new_agent : String → ℕ → SpawnRequest → SubAgent
new_agent id now req = record {
  id = id;
  parent_id = req.parent_id;
  session_id = req.session_id;
  status = running;
  system_prompt = req.system_prompt;
  history = message req.initial_message ∷ [];
  result = none;
  error = none;
  created_at = now;
  finished_at = none;
  canceled = false;
}

unfoldable pub enter : String → ℕ → SpawnRequest → Manager → Manager
enter id now req s = record s {
  agents = insert String-discrete id (new_agent id now req) s.agents;
  active = s.active + 1;
  runs =
      s.runs
      ++ record {
        agent_id = id;
        timeout = positive_or req.timeout s.settings.default_timeout;
        point = starting;
      }
        ∷ [];
}

unfoldable pub admit :
    String ⊎ String → ℕ → SpawnRequest → Manager → Manager × (ManagerError ⊎ String)
unfolding enter
admit (inl e) now req s = (s, inl (id_failed e))
admit (inr id) now req s = (enter id now req s, inr id)

-- Spawn up to the release of the mutex; the first argument is what generateID returns.
unfoldable pub spawn :
    String ⊎ String → ℕ → SpawnRequest → Manager → Manager × (ManagerError ⊎ String)
unfolding crosses admit
spawn generated now req s =
    if req.is_sub_agent
    then (s, inl recursive_spawn)
    else if crosses req s.agents
    then (s, inl cross_session)
    else if leb s.settings.max_concurrent s.active
    then (s, inl max_concurrent_reached)
    else admit generated now req s

-- A write through the pointer that the map holds.
unfoldable pub on_agent : String → (SubAgent → SubAgent) → Manager → Manager
on_agent id f s = elim (lookup String-discrete id s.agents) [
  | none ↦ s
  | some a ↦ record s { agents = insert String-discrete id (f a) s.agents }
]

unfoldable pub goto : ℕ → Point → Manager → Manager
goto i point s = record s { runs = modify s.runs i (λ r. record r { point = point }) }

-- `m.active--`, the last line of a run.
unfoldable pub leave : ℕ → Manager → Manager
unfolding goto
leave i s = goto i gone (record s { active = s.active - 1 })

abbrev pub start_failed : ℕ → RunError → SubAgent → SubAgent
start_failed now e a = record a {
  status = failed;
  error = some e;
  finished_at = some now;
  canceled = true;
}

-- The rest of Spawn when the factory fails.
unfoldable pub fail_start : ℕ → String → ℕ → RunError → Manager → Manager
unfolding leave on_agent
fail_start i id now e s = leave i (on_agent id (start_failed now e) s)

-- `go m.runAgent`
unfoldable pub start_loop : ℕ → Manager → Manager
unfolding goto
start_loop i s = goto i looping s

-- The last `max_history` messages.
abbrev pub cap_history : ℕ → List LlmMessage → List LlmMessage
cap_history n xs = if ltb n (length xs) then drop (length xs - n) xs else xs

-- The history after the answer of the loop.
unfoldable pub answered : ℕ → String → List LlmMessage → List LlmMessage
answered n content xs =
    if same content ""
    then xs
    else cap_history n (xs ++ record (message content) { role = assistant } ∷ [])

abbrev error_status : RunError → Status
error_status deadline_exceeded = timed_out
error_status (other_error e) = failed

-- What runAgent writes once the loop has returned.
unfoldable pub finish_agent : ℕ → ℕ → Response → Option RunError → SubAgent → SubAgent
unfolding answered
finish_agent max_history now resp err a = if is_killed a.status then a else elim err [
  | some e ↦ record a {
    finished_at = some now;
    status = error_status e;
    error = some e;
    result = some resp;
  }
  | none ↦ record a {
    finished_at = some now;
    status = completed;
    result = some resp;
    history = answered max_history resp.content a.history;
  }
]

-- runAgent from the return of the loop to the release of the agent's mutex.
unfoldable pub return_loop : ℕ → String → ℕ → Response → Option RunError → Manager → Manager
unfolding goto on_agent finish_agent
return_loop i id now resp err s =
    goto i leaving (on_agent id (finish_agent s.settings.max_history now resp err) s)

abbrev pub add_message : String → SubAgent → SubAgent
add_message content a = record a { history = a.history ++ message content ∷ [] }

-- Send
unfoldable pub send : String → String → Manager → Manager × Option ManagerError
unfolding on_agent
send id content s = elim (lookup String-discrete id s.agents) [
  | none ↦ (s, some not_found)
  | some a ↦
      if is_running a.status
      then (on_agent id (add_message content) s, none)
      else (s, some (not_running a.status))
]

abbrev pub kill_agent : ℕ → SubAgent → SubAgent
kill_agent now a = record a { status = killed; finished_at = some now; canceled = true }

-- Kill
unfoldable pub kill : String → ℕ → Manager → Manager × Option ManagerError
unfolding on_agent
kill id now s = elim (lookup String-discrete id s.agents) [
  | none ↦ (s, some not_found)
  | some a ↦
      if is_running a.status
      then (on_agent id (kill_agent now) s, none)
      else (s, some (already_finished a.status))
]

abbrev pub stop_agent : ℕ → SubAgent → SubAgent
stop_agent now a = if is_running a.status then kill_agent now a else a

-- One turn of the loop of Shutdown.
unfoldable pub stop : String → ℕ → Manager → Manager
unfolding on_agent
stop id now s = on_agent id (stop_agent now) s

unfoldable pub stop_all : List (Entry String SubAgent) → ℕ → Manager → Manager
unfolding stop
stop_all [] now s = s
stop_all (e ∷ es) now s = stop_all es now (stop e.key now s)

-- Shutdown
unfoldable pub shutdown : ℕ → Manager → Manager
unfolding stop_all
shutdown now s = stop_all s.agents now s

snapshots_of : String → Dict String SubAgent → List Snap
snapshots_of parent_id [] = []
snapshots_of parent_id (e ∷ agents) =
    let rest = snapshots_of parent_id agents in
    if same e.value.parent_id parent_id then snapshot e.value ∷ rest else rest

-- List
unfoldable pub list_snapshots : String → Manager → List Snap
unfolding snapshots_of
list_snapshots parent_id s = snapshots_of parent_id s.agents

-- History
unfoldable pub history_of : String → Manager → ManagerError ⊎ Snap
history_of id s = elim (lookup String-discrete id s.agents) [
  | none ↦ inl not_found
  | some a ↦ inr (snapshot a)
]

-- One step of a caller or of a run. A random id is one that no agent has.
pub data Step (s : Manager) : Manager → Type 0 where
  spawns :
      (id : String) (now : ℕ) (req : SpawnRequest)
      → lookup String-discrete id s.agents ≡ none
      → Step s (spawn (inr id) now req s).0
  starts_fail :
      (i now : ℕ) (r : Run) (e : RunError)
      → get_elem? s.runs i ≡ some r
      → r.point ≡ starting
      → Step s (fail_start i r.agent_id now e s)
  starts :
      (i : ℕ) (r : Run) → get_elem? s.runs i ≡ some r → r.point ≡ starting → Step s (start_loop i s)
  returns :
      (i now : ℕ) (r : Run) (resp : Response) (err : Option RunError)
      → get_elem? s.runs i ≡ some r
      → r.point ≡ looping
      → Step s (return_loop i r.agent_id now resp err s)
  leaves : (i : ℕ) (r : Run) → get_elem? s.runs i ≡ some r → r.point ≡ leaving → Step s (leave i s)
  sends : (id content : String) → Step s (send id content s).0
  kills : (id : String) (now : ℕ) → Step s (kill id now s).0
  stops : (id : String) (now : ℕ) → Step s (stop id now s)

pub data Reach (s : Manager) : Manager → Type 0 where
  here : Reach s s
  next : {t u : Manager} → Reach s t → Step t u → Reach s u

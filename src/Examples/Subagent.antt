-- ===== src/Examples/Subagent.antt =====
-- Runs of internal/subagent/manager.go.
use sclaw.Prelude.{
  ℕ, get_elem?, ◌≡◌, ◌≢◌, refl, ap, String, String-discrete, false, none, some, [], pos, ◌⊎◌, inl,
  inr,
}
use text.Mathlib.Text.{starts_with}
use sclaw.Prelude.Dict.{lookup, insert}
use sclaw.Agent.Loop.{Response, complete}
use sclaw.Subagent.{
  new_agent, kill_agent, SubAgent, Run, starting, starts_fail, fail_start, other_error, killed,
  Manager, ManagerConfig, ManagerError, SpawnRequest, RunError, start_failed, new_manager, spawn,
  crosses, kill, spawns, kills, Reach, here, next,
}
use sclaw.Subagent.Counting.{Counted, Reach-Counted}
use sclaw.Subagent.Draining.{Reach-drain}
use sclaw.Subagent.Isolation.{Reach-Isolated}
use sclaw.Subagent.Starting.{StartingIn}
use sclaw.Subagent.Finality.{ended_stays}

abbrev config : ManagerConfig
config = record { max_concurrent = pos 2; default_timeout = pos 0; max_history = pos 0 }

abbrev request : SpawnRequest
request = record {
  parent_id = "main";
  session_id = "s1";
  system_prompt = "";
  initial_message = "look";
  timeout = pos 0;
  is_sub_agent = false;
}

abbrev one : Manager
one = (spawn (inr "a1") 5 request (new_manager config)).0

abbrev two : Manager
two = (spawn (inr "a2") 6 request one).0

fresh : lookup String-discrete "a2" one.agents ≡ none
unfolding spawn new_manager insert lookup String-discrete
fresh = refl

reached : Reach (new_manager config) two
unfolding new_manager lookup
reached = next (next here (spawns "a1" 5 request refl)) (spawns "a2" 6 request fresh)

third_refused : (spawn (inr "a3") 7 request two).1 ≡ inl ManagerError.max_concurrent_reached
unfolding spawn new_manager insert lookup String-discrete
third_refused = refl

Reach-Counted_example : Counted 2 two
Reach-Counted_example = Reach-Counted config reached

abbrev answer : Response
answer = record {
  content = "done";
  tool_calls = [];
  total_usage = record { prompt_tokens = 0; completion_tokens = 0; total_tokens = 0 };
  iterations = 1;
  stop_reason = complete;
  model = "";
  provider = "";
  transcript = [];
}

Reach-drain_example :
    (t : Manager) × Reach two t
    × (t.active ≡ 0)
    × ((id : String) (now : ℕ) (req : SpawnRequest)
        → req.is_sub_agent ≡ false
        → crosses req t.agents ≡ false
        → (spawn (inr id) now req t).1 ≡ inr id)
Reach-drain_example = Reach-drain config answer reached

abbrev spawned : String → ℕ → SubAgent
spawned id now = new_agent id now request

at_one : lookup String-discrete "a1" two.agents ≡ some (spawned "a1" 5)
unfolding spawn new_manager insert lookup String-discrete
at_one = refl

at_two : lookup String-discrete "a2" two.agents ≡ some (spawned "a2" 6)
unfolding spawn new_manager insert lookup String-discrete
at_two = refl

main_named : ◌≢◌ {A = String} "main" ""
main_named e = cc

session_named : ◌≢◌ {A = String} "s1" ""
session_named e = cc

abbrev foreign : SpawnRequest
foreign = record request { session_id = "other" }

foreign_named : ◌≢◌ {A = String} "other" ""
foreign_named e = cc

foreign_other : ◌≢◌ {A = String} "other" "s1"
foreign_other e = cc (ap (λ t. starts_with t "s") e)

Reach-Isolated_example :
    ((spawned "a1" 5).session_id ≡ (spawned "a2" 6).session_id)
    × ((e : ManagerError) × (spawn (inr "a3") 7 foreign two ≡ (two, inl e)))
Reach-Isolated_example =
    Reach-Isolated config reached "a1" "a2" (spawned "a1" 5) (spawned "a2" 6) at_one at_two refl
      main_named session_named session_named "a3" 7 foreign refl foreign_named foreign_other

abbrev dead : Manager
dead = (kill "a1" 8 two).0

abbrev dead_agent : SubAgent
dead_agent = kill_agent 8 (spawned "a1" 5)

at_dead : lookup String-discrete "a1" dead.agents ≡ some dead_agent
unfolding kill spawn new_manager insert lookup String-discrete
at_dead = refl

abbrev first_run : Run
first_run = record { agent_id = "a1"; timeout = 300000000000; point = starting }

at_first : get_elem? dead.runs 0 ≡ some first_run
unfolding kill spawn new_manager insert lookup String-discrete
at_first = refl

-- The factory of the loop fails after the agent was killed.
abbrev failed_late : Manager
failed_late = fail_start 0 "a1" 9 (other_error "no model") dead

ended_stays_example :
    (b : SubAgent) × (lookup String-discrete "a1" failed_late.agents ≡ some b)
    × ((b ≡ dead_agent)
        ⊎ ((dead_agent.status ≡ killed)
            × StartingIn dead.runs "a1"
            × ((now : ℕ) × ((e : RunError) × (b ≡ start_failed now e dead_agent)))))
ended_stays_example =
    ended_stays config (next reached (kills "a1" 8))
      (next here (starts_fail 0 9 first_run (other_error "no model") at_first refl)) "a1" dead_agent
      at_dead refl

failed_late_run :
    lookup String-discrete "a1" failed_late.agents
    ≡ some (start_failed 9 (other_error "no model") dead_agent)
unfolding fail_start kill spawn new_manager insert lookup String-discrete
failed_late_run = refl

-- ===== src/Examples/Agent.antt =====
-- Runs of internal/agent.
use sclaw.Prelude.{
  ℕ, zero, suc, ◌≤◌, ◌<◌, ◌≡◌, ◌↔◌, refl, false, some, List, [], ◌∷◌, ◌++◌, pos, String-discrete,
}
use sclaw.Prelude.Dict.{lookup, insert}
use sclaw.Provider.Types.{LlmMessage, user, ToolCall, TokenUsage, CompletionResponse}
use sclaw.Agent.Guards.{record_key, add_usage, exceeded, call_key, count_of}
use sclaw.Agent.Executor.{returned}
use sclaw.Agent.Loop.{
  World, LoopConfig, Request, complete, max_iterations, token_budget, live, Completion, completed,
  plain_message, build_initial_messages, run, run_from, round, answer, call_tools, record_calls,
  act, start, with_defaults, finish,
}
use sclaw.Agent.Loop.Bounds.{Ends, run-Within, run-token_budget}
use sclaw.Agent.Loop.Repeats.{times_executed, run-Rare}
use sclaw.Agent.Loop.Transcript.{Rounds, run-Conversation}

abbrev usage : TokenUsage
usage = record { prompt_tokens = 20; completion_tokens = 10; total_tokens = 30 }

abbrev look_up : ToolCall
look_up = record { id = "1"; name = "look_up"; arguments = "{}" }

abbrev asks : CompletionResponse
asks = record { content = "wait"; tool_calls = look_up ∷ []; usage = usage }

abbrev answers : CompletionResponse
answers = record { content = "done"; tool_calls = []; usage = usage }

abbrev config : LoopConfig
config = record {
  max_iterations = pos 4;
  token_budget = pos 100;
  loop_threshold = pos 2;
  provider_name = "p";
}

-- A model that makes one call and then answers, and one that repeats its call for ever.
abbrev one_call : ℕ → List LlmMessage → Completion
one_call zero ms = completed asks
one_call (suc i) ms = completed answers

abbrev stuck : ℕ → List LlmMessage → Completion
stuck i ms = completed asks

abbrev world : (ℕ → List LlmMessage → Completion) → World
world model = record {
  context = λ i. live;
  provider = model;
  execute = λ tc. returned (record { content = "found"; is_error = false });
  json_normal = λ s. some s;
  model_name = "m";
}

abbrev request : Request
request = record { messages = plain_message user "hi" ∷ []; system_prompt = "be brief" }

one_call-run : (run (world one_call) config request).0.stop_reason ≡ complete
unfolding run run_from round answer call_tools record_calls record_key add_usage exceeded act start
    with_defaults finish count_of lookup insert String-discrete call_key
one_call-run = refl

run-Within_example :
    Ends (run (world one_call) config request).0.stop_reason (run (world one_call) config request).1
    × ((run (world one_call) config request).0.iterations ≤ 4)
    × ((run (world one_call) config request).0.stop_reason ≡ max_iterations
        → (run (world one_call) config request).0.iterations ≡ 4)
run-Within_example = run-Within (world one_call) config request

run-token_budget_example :
    (run (world one_call) config request).0.stop_reason ≡ token_budget
    ↔ 100 ≤ (run (world one_call) config request).0.total_usage.total_tokens
run-token_budget_example = run-token_budget (world one_call) config request 99 refl

run-Rare_example :
    times_executed (λ s. some s) "look_up:{}" (run (world stuck) config request).0.tool_calls < 2
run-Rare_example = run-Rare (world stuck) config request "look_up:{}"

run-Conversation_example :
    (ms : List LlmMessage) × ((run (world one_call) config request).0.transcript
      ≡ build_initial_messages request ++ ms)
    × Rounds ms (run (world one_call) config request).0.tool_calls
run-Conversation_example = run-Conversation (world one_call) config request

-- ===== src/Agent/Loop/Transcript.antt =====
-- internal/agent/loop.go: what the conversation holds when Run returns.
use mathlib.Core.List.{append_assoc, append-nil}
use sclaw.Prelude.{ℕ, String, List, [], ◌∷◌, ◌++◌, map, ◌≡◌, refl, sym, ap, ◌∙◌, arith, positive_or}
use sclaw.Provider.Types.{LlmMessage, ToolCall, CompletionResponse}
use sclaw.Agent.Executor.{Outcome, ToolCallRecord, execute_single, execute_all}
use sclaw.Agent.Loop.{
  World, LoopConfig, Request, LoopState, finish, act, start, with_defaults, run,
  build_initial_messages, assistant_message, tool_message, append_assistant_message,
  append_tool_results,
}
use sclaw.Agent.Loop.Turns.{spend, run_from-keeps}

-- Rounds of the conversation: what the model says with its calls, then one result for each call,
-- in the order of the calls and with their ids. The second index lists the records of the calls.
pub data Rounds : List LlmMessage → List ToolCallRecord → Type 0 where
  nothing : Rounds [] []
  then_round :
      (ms : List LlmMessage) (records : List ToolCallRecord)
      → Rounds ms records
      → (content : String) (calls : List ToolCall) (new : List ToolCallRecord)
      → map (λ (r : ToolCallRecord). r.id) new ≡ map (λ (tc : ToolCall). tc.id) calls
      → Rounds (ms ++ assistant_message content calls ∷ map tool_message new) (records ++ new)

execute_all-ids :
    (execute : ToolCall → Outcome) (calls : List ToolCall)
    → map (λ (r : ToolCallRecord). r.id) (execute_all execute calls)
      ≡ map (λ (tc : ToolCall). tc.id) calls
unfolding execute_all execute_single
execute_all-ids execute [] = refl
execute_all-ids execute (tc ∷ calls) = ap (◌∷◌ tc.id) (execute_all-ids execute calls)

Conversation : List LlmMessage → List LlmMessage → List ToolCallRecord → Type 0
Conversation first messages records =
    (ms : List LlmMessage) × (messages ≡ first ++ ms) × Rounds ms records

act-Conversation :
    (world : World) (first : List LlmMessage) (resp : CompletionResponse) (s : LoopState)
    → Conversation first s.messages s.tool_calls
    → Conversation first (act world resp s).messages (act world resp s).tool_calls
unfolding act append_assistant_message append_tool_results Conversation
act-Conversation world first resp s (ms, e, r) = (
  ms ++ assistant_message resp.content resp.tool_calls ∷ map tool_message new,
  ap (λ m. (m ++ assistant_message resp.content resp.tool_calls ∷ []) ++ map tool_message new) e
      ∙ ap (λ m. m ++ map tool_message new)
          (append_assoc first ms (assistant_message resp.content resp.tool_calls ∷ []))
      ∙ append_assoc first (ms ++ assistant_message resp.content resp.tool_calls ∷ [])
          (map tool_message new)
      ∙ ap (λ m. first ++ m)
          (append_assoc ms (assistant_message resp.content resp.tool_calls ∷ [])
            (map tool_message new)),
  then_round ms s.tool_calls r resp.content resp.tool_calls new
      (execute_all-ids world.execute resp.tool_calls),
)
  where
    new : List ToolCallRecord
    new = execute_all world.execute resp.tool_calls

-- When Run returns, for whatever reason, the conversation is the request's messages, behind its
-- system prompt, and then whole rounds: no call of a tool stands without its result, and the
-- records in the response are those of these rounds, in order.
pub run-Conversation :
    (world : World) (cfg : LoopConfig) (req : Request)
    → (ms : List LlmMessage) × ((run world cfg req).0.transcript ≡ build_initial_messages req ++ ms)
      × Rounds ms (run world cfg req).0.tool_calls
unfolding run finish with_defaults start Conversation
run-Conversation world cfg req =
    run_from-keeps world cfg.provider_name n (λ i s. Conversation first s.messages s.tool_calls)
      (λ out. Conversation first out.0.transcript out.0.tool_calls)
      (λ i s l p. record {
        on_context = λ g. p;
        on_failure = λ e. p;
        on_budget = λ resp e. p;
        on_complete = λ resp e. p;
        on_loop = λ resp e d f. p;
        on_tools = λ resp e d f.
            act-Conversation world first resp (record (spend resp s) { detector = d }) p;
      })
      (λ s p. p) n 0 (start (with_defaults cfg) req) (omega arith)
      ([], sym (append-nil first), nothing)
  where
    n : ℕ
    n = positive_or cfg.max_iterations 10

    first : List LlmMessage
    first = build_initial_messages req

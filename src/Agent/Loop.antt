-- ===== src/Agent/Loop.antt =====
-- internal/agent/loop.go: Run. The provider, the context and the tools are the argument `world`.
pub mod Turns
pub mod Bounds
pub mod Repeats
pub mod Transcript
use sclaw.Prelude.{
  ℕ, zero, suc, ◌+◌, String, Bool, true, false, Option, none, some, List, [], ◌∷◌, ◌++◌, map, ℤ,
  positive_or, if◌then◌else◌, is_yes, ◌⊎◌, inl, inr, String-discrete, length,
}
use sclaw.Provider.Errors.{Error}
use sclaw.Provider.Types.{
  LlmMessage, MessageRole, system, assistant, tool, ToolCall, TokenUsage, CompletionResponse,
}
use sclaw.Agent.Guards.{LoopDetector, TokenTracker, call_key, record_key, add_usage, exceeded}
use sclaw.Agent.Executor.{Output, Outcome, ToolCallRecord, execute_all}

-- LoopConfig, as given. The timeout acts through the context.
pub record LoopConfig : Type 0 where
  pub max_iterations : ℤ
  pub token_budget : ℤ
  pub loop_threshold : ℤ
  pub provider_name : String

-- LoopConfig after `withDefaults`.
pub record LoopSettings : Type 0 where
  pub max_iterations : ℕ
  pub token_budget : ℤ
  pub loop_threshold : ℕ
  pub provider_name : String

unfoldable pub with_defaults : LoopConfig → LoopSettings
with_defaults c = record {
  max_iterations = positive_or c.max_iterations 10;
  token_budget = c.token_budget;
  loop_threshold = positive_or c.loop_threshold 3;
  provider_name = c.provider_name;
}

pub record Request : Type 0 where
  pub messages : List LlmMessage
  pub system_prompt : String

pub data StopReason : Type 0 where
  complete max_iterations loop_detected token_budget timeout error : StopReason

pub data LoopError : Type 0 where
  token_budget_exceeded max_iterations_reached loop_found : LoopError
  cancelled deadline_exceeded : LoopError
  provider_failed : Error → LoopError

-- Response. `transcript` is the local variable `messages` at the return, for the theorems.
pub record Response : Type 0 where
  pub content : String
  pub tool_calls : List ToolCallRecord
  pub total_usage : TokenUsage
  pub iterations : ℕ
  pub stop_reason : StopReason
  pub model : String
  pub provider : String
  pub transcript : List LlmMessage

-- ctx.Err() at the start of an iteration.
pub data Context : Type 0 where
  live done past_deadline : Context

pub data Completion : Type 0 where
  completed : CompletionResponse → Completion
  completion_failed : Error → Completion

pub record World : Type 0 where
  pub context : ℕ → Context
  pub provider : ℕ → List LlmMessage → Completion
  pub execute : ToolCall → Outcome
  pub json_normal : String → Option String
  pub model_name : String

abbrev pub plain_message : MessageRole → String → LlmMessage
plain_message role content = record {
  role = role;
  content = content;
  content_parts = [];
  name = "";
  tool_id = "";
  tool_calls = [];
  is_error = false;
}

-- buildInitialMessages
unfoldable pub build_initial_messages : Request → List LlmMessage
build_initial_messages req =
    if is_yes (String-discrete req.system_prompt "")
    then req.messages
    else plain_message system req.system_prompt ∷ req.messages

unfoldable pub tool_message : ToolCallRecord → LlmMessage
tool_message rec = record (plain_message tool rec.output.content) {
  tool_id = rec.id;
  is_error = rec.output.is_error;
}

-- appendToolResults
unfoldable pub append_tool_results : List LlmMessage → List ToolCallRecord → List LlmMessage
unfolding tool_message
append_tool_results messages records = messages ++ map tool_message records

unfoldable pub assistant_message : String → List ToolCall → LlmMessage
assistant_message content calls = record (plain_message assistant content) { tool_calls = calls }

-- appendAssistantMessage
unfoldable pub append_assistant_message : List LlmMessage → String → List ToolCall → List LlmMessage
unfolding assistant_message
append_assistant_message messages content calls = messages ++ assistant_message content calls ∷ []

-- The loop over the calls of one reply, up to the first that is a repetition.
unfoldable pub record_calls :
    (String → Option String) → List ToolCall → LoopDetector → LoopDetector × Bool
record_calls json_normal [] d = (d, false)
record_calls json_normal (tc ∷ calls) d =
    let (d', found) = record_key d (call_key json_normal tc) in
    let rest = record_calls json_normal calls d' in if found then (d', true) else rest

-- The variables of the loop.
pub record LoopState : Type 0 where
  pub detector : LoopDetector
  pub tracker : TokenTracker
  pub messages : List LlmMessage
  pub tool_calls : List ToolCallRecord

unfoldable pub finish : World → String → ℕ → String → StopReason → LoopState → Response
finish world provider_name iterations content reason s = record {
  content = content;
  tool_calls = s.tool_calls;
  total_usage = s.tracker.usage;
  iterations = iterations;
  stop_reason = reason;
  model = world.model_name;
  provider = provider_name;
  transcript = s.messages;
}

abbrev pub reason_of : Context → StopReason
reason_of past_deadline = timeout
reason_of _ = error

abbrev pub context_error : Context → LoopError
context_error past_deadline = deadline_exceeded
context_error _ = cancelled

-- The variables after the tools of one reply have run.
unfoldable pub act : World → CompletionResponse → LoopState → LoopState
unfolding append_tool_results append_assistant_message
act world resp s =
    let records = execute_all world.execute resp.tool_calls in
    record s {
      messages =
          append_tool_results (append_assistant_message s.messages resp.content resp.tool_calls)
            records;
      tool_calls = s.tool_calls ++ records;
    }

-- How one iteration ends: with the variables of the next one, or with what Run returns.
abbrev pub Turn : Type 0
Turn = LoopState ⊎ (Response × Option LoopError)

-- The calls of a reply: the repetition check, then the tools.
unfoldable pub call_tools : World → String → ℕ → CompletionResponse → LoopState → Turn
unfolding finish record_calls
call_tools world name i resp t =
    let (d, found) = record_calls world.json_normal resp.tool_calls t.detector in
    let u = record t { detector = d } in
    if found
    then inr (finish world name (i + 1) "" loop_detected u, some loop_found)
    else inl (act world resp u)

-- One iteration from the provider's reply on.
unfoldable pub answer : World → String → ℕ → CompletionResponse → LoopState → Turn
unfolding finish add_usage
answer world name i resp s =
    let t = record s { tracker = add_usage s.tracker resp.usage } in
    if exceeded t.tracker
    then inr (finish world name (i + 1) "" token_budget t, some token_budget_exceeded)
    else elim resp.tool_calls [
      | [] ↦ inr (finish world name (i + 1) resp.content complete t, none)
      | tc ∷ tcs ↦ call_tools world name i resp t
    ]

-- The body of the loop.
unfoldable pub round : World → String → ℕ → LoopState → Turn
unfolding finish
round world name i s =
    let stopped : Turn = inr (
      finish world name i "" (reason_of (world.context i)) s,
      some (context_error (world.context i)),
    ) in
    elim (world.context i) [
      | live ↦ elim (world.provider i s.messages) [
        | completion_failed e ↦ inr (finish world name i "" error s, some (provider_failed e))
        | completed resp ↦ answer world name i resp s
      ]
      | _ ↦ stopped
    ]

-- The loop of Run with `rounds` iterations left, at iteration `i`.
unfoldable pub run_from : World → String → ℕ → ℕ → LoopState → Response × Option LoopError
unfolding finish
run_from world name zero i s =
    (finish world name i "" max_iterations s, some max_iterations_reached)
run_from world name (suc rounds) i s =
    let next = λ (t : LoopState). run_from world name rounds (i + 1) t in
    elim (round world name i s) [ inl t ↦ next t | inr out ↦ out ]

abbrev pub no_usage : TokenUsage
no_usage = record { prompt_tokens = 0; completion_tokens = 0; total_tokens = 0 }

unfoldable pub start : LoopSettings → Request → LoopState
start c req = record {
  detector = record { threshold = c.loop_threshold; counts = [] };
  tracker = record { budget = c.token_budget; usage = no_usage };
  messages = build_initial_messages req;
  tool_calls = [];
}

-- NewLoop and Run
unfoldable pub run : World → LoopConfig → Request → Response × Option LoopError
unfolding run_from start with_defaults
run world cfg req =
    let c = with_defaults cfg in run_from world c.provider_name c.max_iterations 0 (start c req)

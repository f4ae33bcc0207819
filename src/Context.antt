-- ===== src/Context.antt =====
-- internal/context: token budgets, compaction and the assembly of a prompt. Limits and window sizes
-- are not negative. The estimator, the summarizer and the JSON encoder are arguments.
pub mod Trimming
pub mod Assembly
use Prim.Native.String.{◌++◌}
use sclaw.Prelude.{
  ℕ, zero, suc, ◌+◌, ◌-◌, String, Bool, true, false, ◌&&◌, Option, none, some, List, [], ◌∷◌,
  ◌++◌ as append, ◌⊎◌, inl, inr, ltb, leb, ◌==◌, if◌then◌else◌, is_yes, String-discrete, length,
  take, drop,
}
use sclaw.Provider.Types.{LlmMessage, MessageRole, system, ContentPart, ToolCall, ToolDefinition}

pub record ContextConfig : Type 0 where
  pub max_context_tokens : ℕ
  pub reserved_for_reply : ℕ
  pub compaction_threshold : ℕ
  pub retain_recent : ℕ
  pub emergency_retain : ℕ
  pub max_memory_tokens : ℕ
  pub max_memory_facts : ℕ

or_default : ℕ → ℕ → ℕ
or_default n d = if n == 0 then d else n

-- withDefaults
unfoldable pub with_defaults : ContextConfig → ContextConfig
unfolding or_default
with_defaults c = record {
  max_context_tokens = c.max_context_tokens;
  reserved_for_reply = or_default c.reserved_for_reply 1024;
  compaction_threshold = or_default c.compaction_threshold 20;
  retain_recent = or_default c.retain_recent 20;
  emergency_retain = or_default c.emergency_retain 5;
  max_memory_tokens = or_default c.max_memory_tokens 2000;
  max_memory_facts = or_default c.max_memory_facts 10;
}

pub record ContextBudget : Type 0 where
  pub window_size : ℕ
  pub system_tokens : ℕ
  pub tools : ℕ
  pub memory : ℕ
  pub history : ℕ
  pub reserved : ℕ

-- Used
unfoldable pub used : ContextBudget → ℕ
used b = b.system_tokens + b.tools + b.memory + b.history + b.reserved

-- Available
unfoldable pub available : ContextBudget → ℕ
unfolding used
available b = b.window_size - used b

-- Exceeded
unfoldable pub exceeded : ContextBudget → Bool
unfolding used
exceeded b = ltb b.window_size (used b)

abbrev same : String → String → Bool
same s t = is_yes (String-discrete s t)

abbrev pub is_system : MessageRole → Bool
is_system system = true
is_system _ = false

module _ (estimate : String → ℕ) where
  estimate_part : ContentPart → ℕ
  estimate_part (ContentPart.text s) = estimate s
  estimate_part (ContentPart.image_url url detail) = 765

  estimate_parts : List ContentPart → ℕ
  unfolding estimate_part
  estimate_parts [] = 0
  estimate_parts (p ∷ parts) = estimate_part p + estimate_parts parts

  estimate_calls : List ToolCall → ℕ
  estimate_calls [] = 0
  estimate_calls (c ∷ calls) = estimate c.name + estimate c.arguments + estimate_calls calls

  estimate_content : LlmMessage → ℕ
  unfolding estimate_parts
  estimate_content m = elim m.content_parts [
    | [] ↦ estimate m.content
    | p ∷ parts ↦ estimate_parts (p ∷ parts)
  ]

  unfoldable pub estimate_message : LlmMessage → ℕ
  unfolding estimate_content estimate_calls
  estimate_message m =
      4
      + estimate_content m
      + (if same m.name "" then 0 else estimate m.name)
      + estimate_calls m.tool_calls

  -- EstimateMessages
  unfoldable pub estimate_messages : List LlmMessage → ℕ
  unfolding estimate_message
  estimate_messages [] = 0
  estimate_messages (m ∷ messages) = estimate_message m + estimate_messages messages

  estimate_parameters : Option String → ℕ
  estimate_parameters none = 0
  estimate_parameters (some p) = estimate p

  -- EstimateTools
  unfoldable pub estimate_tools : List ToolDefinition → ℕ
  unfolding estimate_parameters
  estimate_tools [] = 0
  estimate_tools (t ∷ tools) =
      estimate t.name
      + estimate t.description
      + estimate_parameters t.parameters
      + estimate_tools tools

  -- EstimateToolDefinitions; json.Marshal may fail.
  unfoldable pub estimate_tool_definitions :
      (List ToolDefinition → Option String) → List ToolDefinition → ℕ
  unfolding estimate_tools
  estimate_tool_definitions marshal [] = 0
  estimate_tool_definitions marshal (t ∷ tools) = elim (marshal (t ∷ tools)) [
    | none ↦ estimate_tools (t ∷ tools)
    | some json ↦ estimate json
  ]

-- strings.Join(parts, "\n\n")
unfoldable pub join_parts : List String → String
join_parts [] = ""
join_parts (p ∷ []) = p
join_parts (p ∷ q ∷ parts) = p ++ "\n\n" ++ join_parts (q ∷ parts)

-- EstimateSystemPrompt
unfoldable pub estimate_system_prompt : (String → ℕ) → List String → ℕ
unfolding join_parts
estimate_system_prompt estimate parts = estimate (join_parts parts)

-- Summarizer: an error or a summary.
abbrev pub Summarizer : Type 0
Summarizer = List LlmMessage → String ⊎ String

-- Compactor; its configuration has the defaults.
pub record Compactor : Type 0 where
  pub summarizer : Option Summarizer
  pub config : ContextConfig

-- NewCompactor
unfoldable pub new_compactor : Option Summarizer → ContextConfig → Compactor
unfolding with_defaults
new_compactor summarizer cfg = record { summarizer = summarizer; config = with_defaults cfg }

-- ShouldCompact
unfoldable pub should_compact : Compactor → List LlmMessage → Bool
should_compact c history = ltb c.config.compaction_threshold (length history)

-- summarize
unfoldable pub summarize : Compactor → List LlmMessage → String ⊎ String
summarize c [] = inr ""
summarize c (m ∷ messages) = elim c.summarizer [ none ↦ inr "" | some s ↦ s (m ∷ messages) ]

abbrev pub summary_message : String → LlmMessage
summary_message summary = record {
  role = system;
  content = "[Conversation Summary]\n" ++ summary;
  content_parts = [];
  name = "";
  tool_id = "";
  tool_calls = [];
  is_error = false;
}

-- prependSummary
unfoldable pub prepend_summary : String → List LlmMessage → List LlmMessage
prepend_summary summary recent =
    if same summary "" then recent else summary_message summary ∷ recent

unfoldable pub prepended : List LlmMessage → String ⊎ String → String ⊎ List LlmMessage
unfolding prepend_summary
prepended recent (inl e) = inl e
prepended recent (inr summary) = inr (prepend_summary summary recent)

-- Compact; an error is the summarizer's.
unfoldable pub compact : Compactor → List LlmMessage → String ⊎ List LlmMessage
unfolding summarize prepended
compact c history =
    let retain = c.config.retain_recent in
    if leb (length history) retain
    then inr history
    else prepended (drop (length history - retain) history)
        (summarize c (take (length history - retain) history))

-- EmergencyCompact
unfoldable pub emergency_compact : Compactor → List LlmMessage → List LlmMessage
emergency_compact c history =
    let retain = c.config.emergency_retain in
    if leb (length history) retain then history else drop (length history - retain) history

-- formatMemoryFacts, of at least one fact.
format_lines : List String → String
format_lines [] = ""
format_lines (fact ∷ facts) = "- " ++ fact ++ "\n" ++ format_lines facts

unfoldable pub format_memory_facts : List String → String
unfolding format_lines
format_memory_facts [] = ""
format_memory_facts (fact ∷ facts) = "## Relevant Memory\n\n" ++ format_lines (fact ∷ facts)

-- ContextAssembler; its configuration has the defaults.
pub record ContextAssembler : Type 0 where
  pub estimate : String → ℕ
  pub marshal : List ToolDefinition → Option String
  pub compactor : Option Compactor
  pub config : ContextConfig

-- NewContextAssembler
unfoldable pub new_context_assembler :
    (String → ℕ) → (List ToolDefinition → Option String) → ContextConfig → ContextAssembler
unfolding with_defaults
new_context_assembler estimate marshal cfg = record {
  estimate = estimate;
  marshal = marshal;
  compactor = none;
  config = with_defaults cfg;
}

-- SetCompactor
unfoldable pub set_compactor : Compactor → ContextAssembler → ContextAssembler
set_compactor c a = record a { compactor = some c }

-- The loop of limitMemoryFactsByTokens.
unfoldable pub keep_facts : (String → ℕ) → ℕ → List String → List String → List String
unfolding format_memory_facts
keep_facts estimate max_tokens kept [] = kept
keep_facts estimate max_tokens kept (fact ∷ facts) =
    let candidate = append kept (fact ∷ []) in
    let more = keep_facts estimate max_tokens candidate facts in
    if ltb max_tokens (estimate (format_memory_facts candidate)) then kept else more

unfoldable pub facts_and_tokens : (String → ℕ) → List String → List String × ℕ
unfolding format_memory_facts
facts_and_tokens estimate [] = ([], 0)
facts_and_tokens estimate (fact ∷ facts) =
    (fact ∷ facts, estimate (format_memory_facts (fact ∷ facts)))

-- limitMemoryFactsByTokens
unfoldable pub limit_facts : (String → ℕ) → ℕ → List String → List String × ℕ
unfolding keep_facts facts_and_tokens
limit_facts estimate max_tokens facts =
    facts_and_tokens estimate
      (if max_tokens == 0 then facts else keep_facts estimate max_tokens [] facts)

-- The loop of trimHistory: `tokens` are those of the history as it stands, `summary` those of the
-- summary message, and the list is what follows it.
unfoldable pub drop_oldest : (String → ℕ) → ℕ → ℕ → ℕ → List LlmMessage → List LlmMessage
unfolding estimate_messages
drop_oldest estimate budget summary tokens [] = []
drop_oldest estimate budget summary tokens (m ∷ []) = m ∷ []
drop_oldest estimate budget summary tokens (m ∷ n ∷ messages) =
    let rest =
      drop_oldest estimate budget summary (estimate_messages estimate (n ∷ messages) + summary)
        (n ∷ messages) in
    if ltb budget tokens then rest else m ∷ n ∷ messages

-- trimHistory
unfoldable pub trim_history : (String → ℕ) → ℕ → List LlmMessage → List LlmMessage
unfolding drop_oldest
trim_history estimate budget [] = []
trim_history estimate budget (m ∷ messages) =
    let tokens = estimate_messages estimate (m ∷ messages) in
    if leb tokens budget
    then m ∷ messages
    else if is_system m.role
    then m ∷ drop_oldest estimate budget (estimate_messages estimate (m ∷ [])) tokens messages
    else drop_oldest estimate budget 0 tokens (m ∷ messages)

pub record AssemblyRequest : Type 0 where
  pub window_size : ℕ
  pub system_parts : List String
  pub tools : List ToolDefinition
  pub history : List LlmMessage
  pub memory_facts : List String

pub record AssemblyResult : Type 0 where
  pub system_prompt : String
  pub messages : List LlmMessage
  pub tools : List ToolDefinition
  pub budget : ContextBudget
  pub compacted : Bool

and_compacted : String ⊎ List LlmMessage → String ⊎ (List LlmMessage × Bool)
and_compacted (inl e) = inl e
and_compacted (inr history) = inr (history, true)

-- Proactive compaction: the history, and whether it was compacted.
unfoldable pub compact_history :
    Option Compactor → List LlmMessage → String ⊎ (List LlmMessage × Bool)
unfolding should_compact compact and_compacted
compact_history none history = inr (history, false)
compact_history (some c) history =
    if should_compact c history then and_compacted (compact c history) else inr (history, false)

abbrev pub window_of : ContextAssembler → AssemblyRequest → ℕ
window_of a req =
    if ltb 0 a.config.max_context_tokens then a.config.max_context_tokens else req.window_size

-- The facts within both limits, with their tokens.
unfoldable pub facts_of : ContextAssembler → AssemblyRequest → List String × ℕ
unfolding limit_facts
facts_of a req = limit_facts a.estimate a.config.max_memory_tokens (
    if ltb 0 a.config.max_memory_facts
    then take a.config.max_memory_facts req.memory_facts
    else req.memory_facts)

unfoldable pub with_memory : String → List String → String
unfolding format_memory_facts
with_memory prompt [] = prompt
with_memory prompt (fact ∷ facts) =
    if same prompt ""
    then format_memory_facts (fact ∷ facts)
    else prompt ++ "\n\n" ++ format_memory_facts (fact ∷ facts)

-- The budget before the history.
unfoldable pub fixed_budget : ContextAssembler → AssemblyRequest → ContextBudget
unfolding facts_of
fixed_budget a req = record {
  window_size = window_of a req;
  system_tokens = estimate_system_prompt a.estimate req.system_parts;
  tools = estimate_tool_definitions a.estimate a.marshal req.tools;
  memory = (facts_of a req).1;
  history = 0;
  reserved = a.config.reserved_for_reply;
}

unfoldable pub assembled :
    ContextAssembler → AssemblyRequest → String ⊎ (List LlmMessage × Bool) → String ⊎ AssemblyResult
unfolding fixed_budget with_memory available
assembled a req (inl e) = inl e
assembled a req (inr (history, compacted)) =
    let fixed = fixed_budget a req in
    let messages = trim_history a.estimate (available fixed) history in
    inr (record {
      system_prompt = with_memory (join_parts req.system_parts) (facts_of a req).0;
      messages = messages;
      tools = req.tools;
      budget = record fixed { history = estimate_messages a.estimate messages };
      compacted = compacted;
    })

-- Assemble; an error is the summarizer's.
unfoldable pub assemble : ContextAssembler → AssemblyRequest → String ⊎ AssemblyResult
unfolding compact_history assembled
assemble a req = assembled a req (compact_history a.compactor req.history)

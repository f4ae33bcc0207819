-- ===== src/Examples/Context.antt =====
-- Runs of internal/context.
use Prim.Native.Nat.{ℕ}
use sclaw.Prelude.{String-discrete, String, ◌≡◌, refl, none, some, List, [], ◌∷◌, inr, false}
use sclaw.Provider.Types.{LlmMessage, MessageRole, user, system}
use sclaw.Context.{
  ContextConfig, Compactor, new_compactor, compact, ContextAssembler, new_context_assembler,
  set_compactor, AssemblyRequest, trim_history, estimate_messages, estimate_message,
}
use sclaw.Context.Trimming.{Minimal, summary_of, after_summary, trim_history-Minimal}
use sclaw.Context.Assembly.{Compacted, compact-Compacted}

abbrev said : MessageRole → String → LlmMessage
said role content = record {
  role = role;
  content = content;
  content_parts = [];
  name = "";
  tool_id = "";
  tool_calls = [];
  is_error = false;
}

abbrev history : List LlmMessage
history = said system "so far" ∷ said user "a" ∷ said user "b" ∷ said user "c" ∷ []

-- Ten tokens a text.
abbrev ten : String → ℕ
ten s = 10

abbrev config : ContextConfig
config = record {
  max_context_tokens = 0;
  reserved_for_reply = 5;
  compaction_threshold = 2;
  retain_recent = 2;
  emergency_retain = 1;
  max_memory_tokens = 0;
  max_memory_facts = 0;
}

trim_run : trim_history ten 30 history ≡ said system "so far" ∷ said user "c" ∷ []
unfolding trim_history estimate_messages estimate_message String-discrete
trim_run = refl

trim_history-Minimal_example :
    Minimal ten 30 (summary_of history) (after_summary history) (trim_history ten 30 history)
trim_history-Minimal_example = trim_history-Minimal ten 30 history

abbrev compactor : Compactor
compactor = new_compactor (some (λ ms. inr "talk")) config

compact-Compacted_example : Compacted compactor history (compact compactor history)
compact-Compacted_example = compact-Compacted compactor history

abbrev assembler : ContextAssembler
assembler = set_compactor compactor (new_context_assembler ten (λ tools. none) config)

abbrev request : AssemblyRequest
request = record {
  window_size = 50;
  system_parts = "You are a claw" ∷ [];
  tools = [];
  history = history;
  memory_facts = "likes tea" ∷ [];
}

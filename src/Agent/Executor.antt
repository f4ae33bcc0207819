-- ===== src/Agent/Executor.antt =====
-- internal/agent/executor.go. What the registry does with one call is the argument `execute`; the
-- duration of a call is left out. The goroutines write to distinct slots of the results, so their
-- interleaving does not show.
use Prim.Native.String.{◌++◌}
use sclaw.Prelude.{String, Bool, true, false, List, map}
use sclaw.Provider.Types.{ToolCall}

-- tool.Output
pub record Output : Type 0 where
  pub content : String
  pub is_error : Bool

-- How a call of the registry ends: with an output, an error's text, or a panic's.
pub data Outcome : Type 0 where
  returned : Output → Outcome
  failed : String → Outcome
  panicked : String → Outcome

pub record ToolCallRecord : Type 0 where
  pub id : String
  pub name : String
  pub arguments : String
  pub output : Output
  pub panicked : Bool

unfoldable pub output_of : Outcome → Output
output_of (returned out) = out
output_of (failed e) = record { content = e; is_error = true }
output_of (panicked r) = record { content = "panic: " ++ r; is_error = true }

has_panicked : Outcome → Bool
has_panicked (panicked r) = true
has_panicked _ = false

-- executeSingle
unfoldable pub execute_single : (ToolCall → Outcome) → ToolCall → ToolCallRecord
unfolding output_of has_panicked
execute_single execute tc = record {
  id = tc.id;
  name = tc.name;
  arguments = tc.arguments;
  output = output_of (execute tc);
  panicked = has_panicked (execute tc);
}

-- Execute
unfoldable pub execute_all : (ToolCall → Outcome) → List ToolCall → List ToolCallRecord
unfolding execute_single
execute_all execute calls = map (execute_single execute) calls

-- ===== src/Agent/Guards.antt =====
-- internal/agent/guards.go: the detector of repeated calls and the token budget. `json_normal` is
-- encoding/json's decoding and encoding again; `none` is an error of either.
use Prim.Native.String.{◌++◌}
use sclaw.Prelude.{
  ℕ, suc, ◌+◌, String, Bool, false, Option, none, some, leb, ℤ, pos, String-discrete,
}
use sclaw.Prelude.Dict.{Dict, lookup, insert}
use sclaw.Provider.Types.{TokenUsage, ToolCall}

pub record LoopDetector : Type 0 where
  pub threshold : ℕ
  pub counts : Dict String ℕ

-- normalizeArgs
unfoldable pub normalize_args : (String → Option String) → String → String
normalize_args json_normal args = elim (json_normal args) [ none ↦ args | some s ↦ s ]

unfoldable pub call_key : (String → Option String) → ToolCall → String
unfolding normalize_args
call_key json_normal tc = tc.name ++ ":" ++ normalize_args json_normal tc.arguments

-- A missing entry of a map of numbers reads as 0.
unfoldable pub count_of : String → Dict String ℕ → ℕ
count_of key counts = elim (lookup String-discrete key counts) [ none ↦ 0 | some n ↦ n ]

-- record, of the key of a call.
unfoldable pub record_key : LoopDetector → String → LoopDetector × Bool
record_key d key =
    let counts = insert String-discrete key (count_of key d.counts + 1) d.counts in
    (record d { counts = counts }, leb d.threshold (count_of key counts))

pub record TokenTracker : Type 0 where
  pub budget : ℤ
  pub usage : TokenUsage

-- add
unfoldable pub add_usage : TokenTracker → TokenUsage → TokenTracker
add_usage t u = record t {
  usage = record {
    prompt_tokens = t.usage.prompt_tokens + u.prompt_tokens;
    completion_tokens = t.usage.completion_tokens + u.completion_tokens;
    total_tokens = t.usage.total_tokens + u.total_tokens;
  };
}

abbrev over_budget : ℤ → ℕ → Bool
over_budget (pos (suc b)) used = leb (suc b) used
over_budget _ used = false

-- exceeded: no budget, and a negative one, mean unlimited.
unfoldable pub exceeded : TokenTracker → Bool
exceeded t = over_budget t.budget t.usage.total_tokens

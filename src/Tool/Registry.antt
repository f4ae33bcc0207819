-- ===== src/Tool/Registry.antt =====
-- internal/tool/registry.go and state.go: the registry and the flow of one execution. What a tool
-- does is the argument `act`, what a pending approval wakes up to the argument `wake`; the texts
-- of errors and of audit details are left out.
pub mod Gate
pub mod Audit
use sclaw.Prelude.{
  ℕ, ◌+◌, String, Bool, true, false, not, ◌&&◌, ◌||◌, Option, none, some, List, [], ◌∷◌, ◌++◌, ◌⊎◌,
  inl, inr, String-discrete, if◌then◌else◌, trim_space,
}
use sclaw.Prelude.Dict.{Dict, lookup, insert}
use sclaw.Agent.Executor.{Output}
use sclaw.Security.RateLimit.{RateLimiter, allow}
use sclaw.Tool.Policy.{
  ApprovalLevel, approval_allow, approval_ask, approval_deny, same, PolicyConfig, ElevatedState,
  apply, resolve_policy,
}

pub record Tool : Type 0 where
  pub name : String
  pub scopes : List String
  pub default_policy : ApprovalLevel

-- Registry; `audited` says that an audit logger is set.
pub record Registry : Type 0 where
  pub tools : Dict String Tool
  pub audited : Bool
  pub rate_limiter : Option RateLimiter

abbrev pub new_registry : Registry
new_registry = record { tools = []; audited = false; rate_limiter = none }

pub data ToolError : Type 0 where
  not_found denied approval_timeout no_scopes empty_tool_name duplicate_tool : ToolError
  rate_limited canceled : ToolError
  request_failed : String → ToolError

-- Register
unfoldable pub register : Registry → Tool → Registry × Option ToolError
register r t =
    let name = trim_space t.name in
    if same name "" then (r, some empty_tool_name) else elim t.scopes [
      | [] ↦ (r, some no_scopes)
      | s ∷ ss ↦ elim (lookup String-discrete name r.tools) [
        | some old ↦ (r, some duplicate_tool)
        | none ↦ (record r { tools = insert String-discrete name t r.tools }, none)
      ]
    ]

-- Get
unfoldable pub get : Registry → String → ToolError ⊎ Tool
get r name = elim (lookup String-discrete name r.tools) [ none ↦ inl not_found | some t ↦ inr t ]

-- How the context of a request stands, or has ended.
pub data RequestContext : Type 0 where
  running past_deadline canceled : RequestContext

-- What the select of Begin receives: a decision, the requester's error, or the context's end.
pub data Wake : Type 0 where
  decided : Bool → Wake
  failed : String → RequestContext → Wake
  timed_out aborted : Wake

-- Begin, of a new PendingApproval: whether the user approved, or the error.
unfoldable pub begin : Wake → ToolError ⊎ Bool
begin (decided approved) = inr approved
begin (failed e running) = inl (request_failed e)
begin (failed e past_deadline) = inl approval_timeout
begin (failed e canceled) = inl ToolError.canceled
begin timed_out = inl approval_timeout
begin aborted = inl ToolError.canceled

pub data AuditEvent : Type 0 where
  over_limit tool_call user_denied user_approved : AuditEvent
  tool_result : Bool → AuditEvent

-- What the tool returned: an output and perhaps an error.
pub record Reply : Type 0 where
  pub output : Output
  pub error : Option String

pub data Verdict : Type 0 where
  refused : ToolError → Verdict
  ran : Reply → Verdict

pub record Execution : Type 0 where
  pub registry : Registry
  pub log : List AuditEvent
  pub verdict : Verdict

unfoldable pub failed_reply : Reply → Bool
failed_reply reply = reply.output.is_error || elim reply.error [ none ↦ false | some e ↦ true ]

audit : Registry → List AuditEvent → List AuditEvent
audit r events = if r.audited then events else []

-- The rate limit: the registry with its limiter charged, and whether the call may go on.
unfoldable pub charge : ℕ → Registry → String → Registry × Bool
charge now r session = elim r.rate_limiter [
  | none ↦ (r, true)
  | some rl ↦
      let (rl', ok) = allow now rl session "tool_call" in (record r { rate_limiter = some rl' }, ok)
]

-- The tool runs and its result is logged, behind the events before it.
finished : Registry → List AuditEvent → Reply → Execution
finished r log reply = record {
  registry = r;
  log = audit r (log ++ tool_result (failed_reply reply) ∷ []);
  verdict = ran reply;
}

unfoldable pub after_request : Registry → Reply → ToolError ⊎ Bool → Execution
unfolding finished audit
after_request r act (inl e) = record {
  registry = r;
  log = audit r (tool_call ∷ []);
  verdict = refused e;
}
after_request r act (inr false) = record {
  registry = r;
  log = audit r (tool_call ∷ user_denied ∷ []);
  verdict = refused denied;
}
after_request r act (inr true) = finished r (tool_call ∷ user_approved ∷ []) act

-- The three ways of an effective level.
unfoldable pub decide : Registry → ApprovalLevel → Option Wake → Reply → Execution
unfolding finished audit
decide r level wake act =
    let no : Execution = record {
      registry = r;
      log = audit r (tool_call ∷ []);
      verdict = refused denied;
    } in
    if same level approval_deny
    then no
    else if same level approval_allow
    then finished r (tool_call ∷ []) act
    else if same level approval_ask
    then elim wake [ none ↦ no | some w ↦ after_request r act (begin w) ]
    else no

unfoldable pub apply_elevated : ℕ → Option ElevatedState → ApprovalLevel → ApprovalLevel
apply_elevated now none level = level
apply_elevated now (some e) level = apply now e level

-- Execute; `wake` is none without a requester, `act` what the tool does if it is run.
unfoldable pub execute :
    ℕ
    → Registry
    → String
    → String
    → PolicyConfig
    → String
    → Option ElevatedState
    → Option Wake
    → (Tool → Reply)
    → Execution
unfolding apply_elevated audit
execute now r name session cfg ctx elevated wake act = elim (get r name) [
  | inl e ↦ record { registry = r; log = []; verdict = refused e }
  | inr t ↦
      let (r', ok) = charge now r session in
      if ok
      then decide r' (apply_elevated now elevated (resolve_policy cfg ctx t.name t.default_policy))
          wake (act t)
      else record { registry = r'; log = audit r (over_limit ∷ []); verdict = refused rate_limited }
]

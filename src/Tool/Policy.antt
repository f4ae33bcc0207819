-- ===== src/Tool/Policy.antt =====
-- internal/tool/policy.go and elevated.go: approval levels, their resolution and validation, and the
-- elevated mode. A map is an association list in the order that `range` happens to take; the errors
-- keep their kind and not their text.
pub mod Lists
pub mod Resolution
use sclaw.Prelude.{
  ℕ, ◌+◌, String, Bool, true, false, not, ◌&&◌, ◌||◌, Option, none, some, List, [], ◌∷◌, ◌⊎◌, inl,
  inr, ltb, String-discrete, is_yes, if◌then◌else◌, trim_space,
}
use sclaw.Prelude.Dict.{Dict, Entry, lookup, insert}

abbrev pub ApprovalLevel : Type 0
ApprovalLevel = String

abbrev pub approval_allow : ApprovalLevel
approval_allow = "allow"

abbrev pub approval_ask : ApprovalLevel
approval_ask = "ask"

abbrev pub approval_deny : ApprovalLevel
approval_deny = "deny"

abbrev pub same : String → String → Bool
same s t = is_yes (String-discrete s t)

-- `default_level` is the field Default.
pub record Policy : Type 0 where
  pub default_level : ApprovalLevel
  pub tools : Dict String ApprovalLevel
  pub allow : List String
  pub ask : List String
  pub deny : List String

pub record PolicyConfig : Type 0 where
  pub dm : Policy
  pub group : Policy

-- isValidApprovalLevel
unfoldable pub is_valid_approval_level : ApprovalLevel → Bool
is_valid_approval_level level =
    same level approval_allow || same level approval_ask || same level approval_deny

-- toolInList
unfoldable pub tool_in_list : List String → String → Bool
tool_in_list [] name = false
tool_in_list (candidate ∷ names) name = same (trim_space candidate) name || tool_in_list names name

-- resolveExplicitLevel
unfoldable pub resolve_explicit_level : Policy → String → Option ApprovalLevel
resolve_explicit_level policy name = elim (lookup String-discrete name policy.tools) [
  | some level ↦ some level
  | none ↦
      if tool_in_list policy.allow name
      then some approval_allow
      else if tool_in_list policy.ask name
      then some approval_ask
      else if tool_in_list policy.deny name
      then some approval_deny
      else none
]

resolve_in : Policy → String → ApprovalLevel → ApprovalLevel
resolve_in policy tool_name default_policy =
    elim (resolve_explicit_level policy (trim_space tool_name)) [
      | some level ↦ level
      | none ↦ if not (same policy.default_level "") then policy.default_level else default_policy
    ]

-- ResolvePolicy, of the tool's name and its own default.
unfoldable pub resolve_policy : PolicyConfig → String → String → ApprovalLevel → ApprovalLevel
unfolding resolve_in
resolve_policy cfg ctx tool_name default_policy =
    if same ctx "dm"
    then resolve_in cfg.dm tool_name default_policy
    else if same ctx "group"
    then resolve_in cfg.group tool_name default_policy
    else default_policy

pub data PolicyError : Type 0 where
  invalid_default empty_name invalid_level tool_in_multiple_lists : PolicyError

abbrev pub Explicit : Type 0
Explicit = Dict String ApprovalLevel

-- The loop over the mapping.
unfoldable pub validate_tools : Dict String ApprovalLevel → Explicit → PolicyError ⊎ Explicit
validate_tools [] explicit = inr explicit
validate_tools (e ∷ tools) explicit =
    let rest = validate_tools tools (insert String-discrete (trim_space e.key) e.value explicit) in
    if same (trim_space e.key) ""
    then inl empty_name
    else if is_valid_approval_level e.value
    then rest
    else inl invalid_level

abbrev conflicts : Option ApprovalLevel → ApprovalLevel → Bool
conflicts none level = false
conflicts (some existing) level = not (same existing level)

-- validatePolicyList
unfoldable pub validate_policy_list :
    List String → ApprovalLevel → Explicit → PolicyError ⊎ Explicit
validate_policy_list [] level explicit = inr explicit
validate_policy_list (raw_name ∷ names) level explicit =
    let rest =
      validate_policy_list names level
        (insert String-discrete (trim_space raw_name) level explicit) in
    if same (trim_space raw_name) ""
    then inl empty_name
    else if conflicts (lookup String-discrete (trim_space raw_name) explicit) level
    then inl tool_in_multiple_lists
    else rest

unfoldable pub and_then :
    PolicyError ⊎ Explicit → (Explicit → PolicyError ⊎ Explicit) → PolicyError ⊎ Explicit
and_then (inl e) f = inl e
and_then (inr x) f = f x

-- validatePolicy: the error, or the levels it collected.
unfoldable pub validate_policy : Policy → PolicyError ⊎ Explicit
unfolding and_then
validate_policy policy =
    if not (same policy.default_level "") && not (is_valid_approval_level policy.default_level)
    then inl invalid_default
    else and_then (validate_tools policy.tools []) (λ x.
      and_then (validate_policy_list policy.allow approval_allow x) (λ y.
        and_then (validate_policy_list policy.ask approval_ask y)
          (λ z. validate_policy_list policy.deny approval_deny z)))

-- ValidatePolicyConfig
unfoldable pub validate_policy_config : PolicyConfig → Option PolicyError
validate_policy_config cfg = elim (validate_policy cfg.dm) [
  | inl e ↦ some e
  | inr x ↦ elim (validate_policy cfg.group) [ inl e ↦ some e | inr y ↦ none ]
]

-- ElevatedState; `until` is none for the zero time.
pub record ElevatedState : Type 0 where
  pub until : Option ℕ

abbrev pub new_elevated_state : ElevatedState
new_elevated_state = record { until = none }

unfoldable pub elevate : ℕ → ℕ → ElevatedState → ElevatedState
elevate now duration e = record { until = some (now + duration) }

unfoldable pub revoke : ElevatedState → ElevatedState
revoke e = record { until = none }

unfoldable pub is_active : ℕ → ElevatedState → Bool
is_active now e = elim e.until [ none ↦ false | some t ↦ ltb now t ]

unfoldable pub apply : ℕ → ElevatedState → ApprovalLevel → ApprovalLevel
apply now e level = if same level approval_ask && is_active now e then approval_allow else level

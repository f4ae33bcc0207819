-- ===== src/Tool/Policy/Resolution.antt =====
-- internal/tool/policy.go: validation and resolution.
use sclaw.Prelude.{
  String, Bool, true, false, Option, none, some, [], ◌⊎◌, inl, inr, ◌≡◌, ◌∙◌, sym, ap, refl,
  String-discrete, if◌then◌else◌, Option-cases, arith,
}
use sclaw.Prelude.Dict.{lookup, IsMap}
use sclaw.Tool.Policy.{
  ApprovalLevel, approval_allow, approval_ask, approval_deny, Policy, tool_in_list,
  resolve_explicit_level, PolicyError, Explicit, validate_tools, validate_policy_list,
  validate_policy, and_then,
}
use sclaw.Tool.Policy.Lists.{list-lookup, list-agrees, Normalized, or_else, tools-lookup}

and_then-inv :
    (r : PolicyError ⊎ Explicit) (f : Explicit → PolicyError ⊎ Explicit) {y : Explicit}
    → and_then r f ≡ inr y
    → (x : Explicit) × (r ≡ inr x) × (f x ≡ inr y)
unfolding and_then
and_then-inv (inl a) f e = cc
and_then-inv (inr x) f e = (x, refl, e)

chain_of :
    (policy : Policy) (levels : Explicit)
    → validate_policy policy ≡ inr levels
    → and_then (validate_tools policy.tools []) (λ x.
      and_then (validate_policy_list policy.allow approval_allow x) (λ y.
        and_then
          (validate_policy_list policy.ask approval_ask y)
          (λ z. validate_policy_list policy.deny approval_deny z)))
      ≡ inr levels
unfolding validate_policy
chain_of policy levels e = ground arith

-- What a validation that succeeds went through.
policy_stages :
    (policy : Policy) (levels : Explicit)
    → validate_policy policy ≡ inr levels
    → (x y z : Explicit) × (validate_tools policy.tools [] ≡ inr x)
      × (validate_policy_list policy.allow approval_allow x ≡ inr y)
      × (validate_policy_list policy.ask approval_ask y ≡ inr z)
      × (validate_policy_list policy.deny approval_deny z ≡ inr levels)
policy_stages policy levels e =
    let (x, hx, ex) =
      and_then-inv (validate_tools policy.tools [])
        (λ x. and_then (validate_policy_list policy.allow approval_allow x) (λ y.
          and_then (validate_policy_list policy.ask approval_ask y)
            (λ z. validate_policy_list policy.deny approval_deny z)))
        (chain_of policy levels e) in
    let (y, hy, ey) =
      and_then-inv (validate_policy_list policy.allow approval_allow x)
        (λ y.
          and_then (validate_policy_list policy.ask approval_ask y)
            (λ z. validate_policy_list policy.deny approval_deny z))
        ex in
    let (z, hz, ez) =
      and_then-inv (validate_policy_list policy.ask approval_ask y)
        (λ z. validate_policy_list policy.deny approval_deny z) ey in
    (x, y, z, hx, hy, hz, ez)

Agrees : Bool → Option ApprovalLevel → ApprovalLevel → Type 0
Agrees b o level = b ≡ true → (l : ApprovalLevel) → o ≡ some l → l ≡ level

-- When the sources agree, the first that has a level has the one that the last wrote.
combine :
    (o : Option ApprovalLevel) (a k d : Bool)
    → Agrees a o approval_allow
    → Agrees k (if a then some approval_allow else o) approval_ask
    → Agrees d (if k then some approval_ask else if a then some approval_allow else o) approval_deny
    → or_else o (
        if a
        then some approval_allow
        else if k
        then some approval_ask
        else if d
        then some approval_deny
        else none)
      ≡ (if d
          then some approval_deny
          else if k
          then some approval_ask
          else if a
          then some approval_allow
          else o)
unfolding Agrees
combine none false false false ha hk hd = refl
combine none false false true ha hk hd = refl
combine none false true false ha hk hd = refl
combine none false true true ha hk hd = ground (arith, hd refl approval_ask refl)
combine none true false false ha hk hd = refl
combine none true false true ha hk hd = ground (arith, hd refl approval_allow refl)
combine none true true false ha hk hd = ground (arith, hk refl approval_allow refl)
combine none true true true ha hk hd =
    ground (arith, hk refl approval_allow refl, hd refl approval_ask refl)
combine (some l) false false false ha hk hd = refl
combine (some l) false false true ha hk hd = ground (arith, hd refl l refl)
combine (some l) false true false ha hk hd = ground (arith, hk refl l refl)
combine (some l) false true true ha hk hd =
    ground (arith, hk refl l refl, hd refl approval_ask refl)
combine (some l) true false false ha hk hd = ground (arith, ha refl l refl)
combine (some l) true false true ha hk hd =
    ground (arith, ha refl l refl, hd refl approval_allow refl)
combine (some l) true true false ha hk hd =
    ground (arith, ha refl l refl, hk refl approval_allow refl)
combine (some l) true true true ha hk hd =
    ground (arith, ha refl l refl, hk refl approval_allow refl, hd refl approval_ask refl)

or_else-none : (o : Option ApprovalLevel) → or_else o none ≡ o
or_else-none none = refl
or_else-none (some l) = refl

resolve_explicit_level-or_else :
    (policy : Policy) (name : String)
    → resolve_explicit_level policy name
      ≡ or_else (lookup String-discrete name policy.tools) (
          if tool_in_list policy.allow name
          then some approval_allow
          else if tool_in_list policy.ask name
          then some approval_ask
          else if tool_in_list policy.deny name
          then some approval_deny
          else none)
unfolding resolve_explicit_level
resolve_explicit_level-or_else policy name =
    elim (Option-cases (lookup String-discrete name policy.tools)) [
      | inl e ↦ rw (e, resolve_explicit_level) refl
      | inr (l, e) ↦ rw (e, resolve_explicit_level) refl
    ]

-- `combine` along the stages of a validation.
combine_stages :
    (t x y z l : Option ApprovalLevel) (a k d : Bool)
    → x ≡ t
    → y ≡ (if a then some approval_allow else x)
    → z ≡ (if k then some approval_ask else y)
    → l ≡ (if d then some approval_deny else z)
    → Agrees a x approval_allow
    → Agrees k y approval_ask
    → Agrees d z approval_deny
    → or_else t (
        if a
        then some approval_allow
        else if k
        then some approval_ask
        else if d
        then some approval_deny
        else none)
      ≡ l
unfolding Agrees
combine_stages t x y z l a k d hx hy hz hl ha hk hd =
    let ey : y ≡ (if a then some approval_allow else t) =
      hy ∙ ap (λ o. if a then some approval_allow else o) hx in
    let ez : z ≡ (if k then some approval_ask else if a then some approval_allow else t) =
      hz ∙ ap (λ o. if k then some approval_ask else o) ey in
    combine t a k d (λ h v e. ha h v (hx ∙ e)) (λ h v e. hk h v (ey ∙ e)) (λ h v e. hd h v (ez ∙ e))
    ∙ sym (hl ∙ ap (λ o. if d then some approval_deny else o) ez)

-- A policy that validates, with keys that carry no space around them: the resolver gives each name
-- exactly the level that validation collected for it.
pub resolve-validate :
    (policy : Policy) (levels : Explicit)
    → IsMap String-discrete policy.tools
    → Normalized policy.tools
    → validate_policy policy ≡ inr levels
    → (name : String) → resolve_explicit_level policy name ≡ lookup String-discrete name levels
unfolding lookup Agrees
resolve-validate policy levels m n e name =
    let (x, y, z, hx, hy, hz, hd) = policy_stages policy levels e in
    resolve_explicit_level-or_else policy name
    ∙ combine_stages (lookup String-discrete name policy.tools) (lookup String-discrete name x)
        (lookup String-discrete name y) (lookup String-discrete name z)
        (lookup String-discrete name levels) (tool_in_list policy.allow name)
        (tool_in_list policy.ask name) (tool_in_list policy.deny name)
        (tools-lookup policy.tools [] x m n hx name
          ∙ or_else-none (lookup String-discrete name policy.tools))
        (list-lookup policy.allow approval_allow x y hy name)
        (list-lookup policy.ask approval_ask y z hz name)
        (list-lookup policy.deny approval_deny z levels hd name)
        (list-agrees policy.allow approval_allow x y hy name)
        (list-agrees policy.ask approval_ask y z hz name)
        (list-agrees policy.deny approval_deny z levels hd name)

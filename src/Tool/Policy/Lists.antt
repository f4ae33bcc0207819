-- ===== src/Tool/Policy/Lists.antt =====
-- internal/tool/policy.go: the levels that validation collects.
use sclaw.Prelude.{
  String, true, Option, none, some, List, [], ◌∷◌, inr, ◌≡◌, ◌∙◌, sym, ap, String-discrete,
  if◌then◌else◌, trim_space, All, arith,
}
use sclaw.Prelude.Dict.{Dict, Entry, lookup, insert, lookup-insert_self, lookup-insert_ne, IsMap}
use sclaw.Tool.Policy.{ApprovalLevel, tool_in_list, Explicit, validate_tools, validate_policy_list}

-- A step of the loop over a list that does not fail.
list_step :
    (raw : String) (names : List String) (level : ApprovalLevel) (x y : Explicit)
    → validate_policy_list (raw ∷ names) level x ≡ inr y
    → (validate_policy_list names level (insert String-discrete (trim_space raw) level x) ≡ inr y)
      × ((l : ApprovalLevel) → lookup String-discrete (trim_space raw) x ≡ some l → l ≡ level)
unfolding validate_policy_list
list_step raw names level x y e = ground arith

-- What a list adds to the levels collected before.
pub list-lookup :
    (names : List String) (level : ApprovalLevel) (x y : Explicit)
    → validate_policy_list names level x ≡ inr y
    → (name : String)
    → lookup String-discrete name y
      ≡ (if tool_in_list names name then some level else lookup String-discrete name x)
unfolding validate_policy_list tool_in_list
list-lookup [] level x y e name = ground arith
list-lookup (raw ∷ names) level x y e name =
    let step = list_step raw names level x y e in
    let rest =
      list-lookup names level (insert String-discrete (trim_space raw) level x) y step.0 name in
    elim (String-discrete (trim_space raw) name) [
      | yes p ↦ ground (
        arith,
        rest,
        p,
        ap (λ n. lookup String-discrete n (insert String-discrete (trim_space raw) level x)) (sym p)
            ∙ lookup-insert_self String-discrete (trim_space raw) level x,
      )
      | no p ↦ ground (
        arith,
        rest,
        p,
        lookup-insert_ne String-discrete (trim_space raw) name level x (λ q. p (sym q)),
      )
    ]

-- A name of the list had the list's level before, or none.
pub list-agrees :
    (names : List String) (level : ApprovalLevel) (x y : Explicit)
    → validate_policy_list names level x ≡ inr y
    → (name : String) → tool_in_list names name ≡ true
    → (l : ApprovalLevel) → lookup String-discrete name x ≡ some l
    → l ≡ level
unfolding tool_in_list
list-agrees [] level x y e name h l f = cc
list-agrees (raw ∷ names) level x y e name h l f =
    let step = list_step raw names level x y e in
    elim (String-discrete (trim_space raw) name) [
      | yes p ↦ step.1 l (ap (λ n. lookup String-discrete n x) p ∙ f)
      | no p ↦
          list-agrees names level (insert String-discrete (trim_space raw) level x) y step.0 name
            (ground (arith, h, p)) l
            (lookup-insert_ne String-discrete (trim_space raw) name level x (λ q. p (sym q)) ∙ f)
    ]

-- The keys of a mapping carry no space around them.
abbrev pub Normalized : Dict String ApprovalLevel → Type 0
Normalized tools = All (λ (e : Entry String ApprovalLevel). trim_space e.key ≡ e.key) tools

abbrev pub or_else : Option ApprovalLevel → Option ApprovalLevel → Option ApprovalLevel
or_else none o = o
or_else (some l) o = some l

-- What the mapping adds to the levels collected before.
pub tools-lookup :
    (tools : Dict String ApprovalLevel) (x y : Explicit)
    → IsMap String-discrete tools
    → Normalized tools
    → validate_tools tools x ≡ inr y
    → (name : String)
    → lookup String-discrete name y
      ≡ or_else (lookup String-discrete name tools) (lookup String-discrete name x)
unfolding validate_tools lookup
tools-lookup [] x y m n e name = ground arith
tools-lookup (t ∷ tools) x y m n e name =
    let rest =
      tools-lookup tools (insert String-discrete (trim_space t.key) t.value x) y m.1 n.1
        (ground arith) name in
    elim (String-discrete name t.key) [
      | yes p ↦
          let absent : lookup String-discrete name tools ≡ none =
            ap (λ k. lookup String-discrete k tools) p ∙ m.0 in
          let at : lookup String-discrete name (insert String-discrete (trim_space t.key) t.value x)
              ≡ some t.value =
            ap (λ k. lookup String-discrete k (insert String-discrete (trim_space t.key) t.value x))
              (p ∙ sym n.0)
            ∙ lookup-insert_self String-discrete (trim_space t.key) t.value x in
          ground (arith, rest, absent, at, p)
      | no p ↦ ground (
        arith,
        rest,
        p,
        lookup-insert_ne String-discrete (trim_space t.key) name t.value x (λ q. p (q ∙ n.0)),
      )
    ]

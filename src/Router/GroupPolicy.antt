-- ===== src/Router/GroupPolicy.antt =====
-- internal/router/policy.go: which messages of a group are processed.
use sclaw.Prelude.{
  ◌≡◌, String, Bool, true, false, not, ◌&&◌, ◌||◌, none, some, List, [], ◌∷◌, if◌then◌else◌, is_yes,
  String-discrete, arith,
}
use sclaw.Message.{InboundMessage, is_direct_message}

-- GroupPolicyMode; any other text is neither.
pub data GroupPolicyMode : Type 0 where
  require_mention allow_all : GroupPolicyMode
  unknown_mode : String → GroupPolicyMode

-- GroupPolicy
pub record GroupPolicy : Type 0 where
  pub mode : GroupPolicyMode
  pub allowlist : List String
  pub denylist : List String

-- slices.Contains
abbrev pub contains : List String → String → Bool
contains [] s = false
contains (x ∷ xs) s = is_yes (String-discrete x s) || contains xs s

abbrev pub is_mentioned : InboundMessage → Bool
is_mentioned m = elim m.mentions [ none ↦ false | some mentions ↦ mentions.is_mentioned ]

-- ShouldProcess
unfoldable pub should_process : GroupPolicy → InboundMessage → Bool
should_process p m =
    if is_direct_message m
    then true
    else if contains p.denylist m.sender.id
    then false
    else elim p.mode [
      | allow_all ↦ true
      | require_mention ↦ if contains p.allowlist m.sender.id then true else is_mentioned m
      | unknown_mode mode ↦ false
    ]

-- A denied sender is never heard outside direct messages, and the mention rule holds for everyone
-- who is neither denied nor on the allow list.
pub should_process-group :
    (p : GroupPolicy) (m : InboundMessage)
    → is_direct_message m ≡ false
    → (contains p.denylist m.sender.id ≡ true → should_process p m ≡ false)
      × (p.mode ≡ require_mention
          → should_process p m ≡ (
              not (contains p.denylist m.sender.id)
              && (contains p.allowlist m.sender.id || is_mentioned m)))
unfolding should_process
should_process-group p m g = ((λ d. ground (arith, g, d)), (λ e. ground (arith, g, e)))

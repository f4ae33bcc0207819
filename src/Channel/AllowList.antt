-- ===== src/Channel/AllowList.antt =====
-- internal/channel/allowlist.go: who may use a channel. Lower case is an argument; a set is the list
-- of its members.
use sclaw.Prelude.{
  ◌≡◌, String, Bool, true, false, ◌&&◌, ◌||◌, Option, none, some, List, [], ◌∷◌, map, if◌then◌else◌,
  is_yes, String-discrete, trim_space, arith,
}
use sclaw.Message.{InboundMessage}

-- AllowList
pub record AllowList : Type 0 where
  pub users : List String
  pub groups : List String

abbrev pub member : String → List String → Bool
member s [] = false
member s (x ∷ xs) = is_yes (String-discrete s x) || member s xs

abbrev pub no_members : List String → Bool
no_members [] = true
no_members (x ∷ xs) = false

module _ (to_lower : String → String) where
  -- normalize
  unfoldable pub normalize : String → String
  normalize s = to_lower (trim_space s)

  -- NewAllowList
  unfoldable pub new_allow_list : List String → List String → AllowList
  unfolding normalize
  new_allow_list users groups = record {
    users = map normalize users;
    groups = map normalize groups;
  }

  -- IsAllowed; no list at all is none.
  unfoldable pub is_allowed : Option AllowList → InboundMessage → Bool
  unfolding normalize
  is_allowed none m = false
  is_allowed (some a) m =
      if no_members a.users && no_members a.groups
      then false
      else member (normalize m.sender.id) a.users || member (normalize m.chat.id) a.groups

  -- A message is allowed exactly if its sender is a listed user or its chat a listed group, up to
  -- the case and the space around the names.
  pub is_allowed-new_allow_list :
      (users groups : List String) (m : InboundMessage)
      → is_allowed (some (new_allow_list users groups)) m ≡ (
          member (normalize m.sender.id) (map normalize users)
          || member (normalize m.chat.id) (map normalize groups))
  unfolding is_allowed new_allow_list
  is_allowed-new_allow_list users groups m = ground arith

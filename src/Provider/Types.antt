-- ===== src/Provider/Types.antt =====
-- internal/provider/types.go: the messages of a conversation. Raw JSON is its text.
use sclaw.Prelude.{ℕ, String, Bool, true, false, Option, List, [], ◌∷◌}

pub data MessageRole : Type 0 where
  system user assistant tool : MessageRole

-- ContentPart: text, or an image with its URL and detail level.
pub data ContentPart : Type 0 where
  text : String → ContentPart
  image_url : String → String → ContentPart

pub record ToolCall : Type 0 where
  pub id : String
  pub name : String
  pub arguments : String

pub record LlmMessage : Type 0 where
  pub role : MessageRole
  pub content : String
  pub content_parts : List ContentPart
  pub name : String
  pub tool_id : String
  pub tool_calls : List ToolCall
  pub is_error : Bool

pub record ToolDefinition : Type 0 where
  pub name : String
  pub description : String
  pub parameters : Option String

pub record TokenUsage : Type 0 where
  pub prompt_tokens : ℕ
  pub completion_tokens : ℕ
  pub total_tokens : ℕ

pub record CompletionResponse : Type 0 where
  pub content : String
  pub tool_calls : List ToolCall
  pub usage : TokenUsage

-- HasImages
unfoldable pub has_images : List ContentPart → Bool
has_images [] = false
has_images (text s ∷ ps) = has_images ps
has_images (image_url u d ∷ ps) = true

-- ===== src/Message.antt =====
-- pkg/message: the messages of the channels. A Go string is the list of its bytes. The coordinates
-- of a location block, which nothing here reads, are left out, and JSON is the boundary's.
use sclaw.Prelude.{
  ℕ, String, Bool, true, false, List, [], ◌∷◌, ◌++◌, Option, not, ◌&&◌, if◌then◌else◌,
}

abbrev pub Bytes : Type 0
Bytes = List ℕ

abbrev pub newline : ℕ
newline = 10

pub data ChatType : Type 0 where
  dm group broadcast : ChatType

pub data BlockType : Type 0 where
  text image audio file location reaction raw : BlockType

pub record Chat : Type 0 where
  pub id : String
  pub chat_type : ChatType
  pub title : String

pub record ContentBlock : Type 0 where
  pub block_type : BlockType
  pub body : Bytes
  pub url : String
  pub mime_type : String
  pub file_name : String
  pub caption : String
  pub is_voice : Bool
  pub emoji : String
  pub raw_data : Bytes

-- NewTextBlock
abbrev pub new_text_block : Bytes → ContentBlock
new_text_block body = record {
  block_type = text;
  body = body;
  url = "";
  mime_type = "";
  file_name = "";
  caption = "";
  is_voice = false;
  emoji = "";
  raw_data = [];
}

pub record OutboundHints : Type 0 where
  pub disable_preview : Bool
  pub disable_notification : Bool
  pub parse_mode : String

pub record OutboundMessage : Type 0 where
  pub channel : String
  pub chat : Chat
  pub thread_id : String
  pub reply_to_id : String
  pub blocks : List ContentBlock
  pub hints : Option OutboundHints

abbrev pub is_empty {ℓ} : {A : Type ℓ} → List A → Bool
is_empty [] = true
is_empty (x ∷ xs) = false

abbrev pub is_text : BlockType → Bool
is_text text = true
is_text _ = false

-- The loop of `textContent`; `result` is what it has joined.
unfoldable pub text_from : Bytes → List ContentBlock → Bytes
text_from result [] = result
text_from result (b ∷ blocks) =
    text_from
      (if is_text b.block_type && not (is_empty b.body)
        then (if is_empty result then b.body else result ++ newline ∷ b.body)
        else result)
      blocks

-- TextContent
unfoldable pub text_content : OutboundMessage → Bytes
unfolding text_from
text_content m = text_from [] m.blocks

-- Sender
pub record Sender : Type 0 where
  pub id : String
  pub username : String
  pub display_name : String

-- Mentions
pub record Mentions : Type 0 where
  pub ids : List String
  pub is_mentioned : Bool

-- InboundMessage, without its raw JSON.
pub record InboundMessage : Type 0 where
  pub id : String
  pub timestamp : ℕ
  pub channel : String
  pub sender : Sender
  pub chat : Chat
  pub thread_id : String
  pub reply_to_id : String
  pub blocks : List ContentBlock
  pub mentions : Option Mentions

-- IsDirectMessage
abbrev pub is_direct_message : InboundMessage → Bool
is_direct_message m = elim m.chat.chat_type [ dm ↦ true | group ↦ false | broadcast ↦ false ]

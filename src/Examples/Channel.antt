-- ===== src/Examples/Channel.antt =====
-- Runs of internal/channel/chunking.go.
use sclaw.Prelude.{zero, suc, ◌≡◌, refl, true, false, [], ◌∷◌, none, pos, arith, ◌⊎◌, All}
use sclaw.Message.{Bytes, OutboundMessage, new_text_block, dm}
use sclaw.Channel.Chunking.{
  force_split, starts_at, split_message, force_split_from, cut_at, cut_back,
}
use sclaw.Channel.Chunking.Runes.{Runes, force_split-Begins}
use sclaw.Channel.Chunking.Messages.{
  contents, contents_all, Within, split_message-contents, split_message-Within,
}

-- "aaa" and an e with an acute accent, of two bytes, in parts of at most four bytes.
abbrev accented : Bytes
accented = 97 ∷ 97 ∷ 97 ∷ 195 ∷ 169 ∷ []

force_split_run : force_split accented 4 ≡ (97 ∷ 97 ∷ 97 ∷ []) ∷ (195 ∷ 169 ∷ []) ∷ []
unfolding force_split force_split_from cut_at cut_back
force_split_run = refl

accented-Runes : Runes accented
accented-Runes zero h = refl
accented-Runes (suc zero) h = refl
accented-Runes (suc (suc i)) h = absurd (omega (arith, h))

force_split-Begins_example : All (λ (p : Bytes). starts_at p 0 ≡ true) (force_split accented 4)
force_split-Begins_example = force_split-Begins accented 4 (omega arith) accented-Runes refl

abbrev letter : OutboundMessage
letter = record {
  channel = "telegram";
  chat = record { id = "7"; chat_type = dm; title = "" };
  thread_id = "";
  reply_to_id = "";
  blocks = new_text_block (97 ∷ 98 ∷ 10 ∷ 99 ∷ []) ∷ new_text_block (100 ∷ []) ∷ [];
  hints = none;
}

split_message-contents_example :
    contents_all (split_message letter (record { max_length = pos 2; preserve_blocks = false }))
    ≡ contents letter.blocks
split_message-contents_example =
    split_message-contents letter (record { max_length = pos 2; preserve_blocks = false })

split_message-Within_example :
    All (Within 2) (split_message letter (record { max_length = pos 2; preserve_blocks = true }))
    ⊎ (contents letter.blocks ≡ [])
split_message-Within_example = split_message-Within letter true 1

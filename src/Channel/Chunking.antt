-- ===== src/Channel/Chunking.antt =====
-- internal/channel/chunking.go: messages split to a platform's maximal length, in bytes.
pub mod Force
pub mod Runes
pub mod Lines
pub mod Messages
use sclaw.Prelude.{
  ℕ, zero, suc, ◌+◌, ◌-◌, Bool, true, false, not, ◌&&◌, ◌||◌, Option, none, some, List, [], ◌∷◌,
  ◌++◌, ltb, leb, ◌==◌, if◌then◌else◌, length, get_elem?, take, drop, map, ℤ, pos, negsuc,
}
use sclaw.Message.{
  Bytes, newline, ContentBlock, new_text_block, OutboundMessage, text_content, is_text, is_empty,
}

pub record ChunkConfig : Type 0 where
  pub max_length : ℤ
  pub preserve_blocks : Bool

-- utf8.RuneStart: not a continuation byte, 10xxxxxx.
abbrev pub rune_start : ℕ → Bool
rune_start b = not (leb 128 b && ltb b 192)

abbrev pub starts_at : Bytes → ℕ → Bool
starts_at line i = elim (get_elem? line i) [ none ↦ true | some b ↦ rune_start b ]

-- The inner loop of `forceSplit`, from a cut down.
unfoldable pub cut_back : Bytes → ℕ → ℕ
cut_back line zero = zero
cut_back line (suc cut) =
    let back = cut_back line cut in if starts_at line (suc cut) then suc cut else back

-- The cut of one chunk.
unfoldable pub cut_at : Bytes → ℕ → ℕ
unfolding cut_back
cut_at line max_len = let cut = cut_back line max_len in if cut == 0 then max_len else cut

-- The loop of `forceSplit`, with as much fuel as there are rounds at most.
unfoldable pub force_split_from : ℕ → Bytes → ℕ → List Bytes
force_split_from zero line max_len = []
force_split_from (suc fuel) line max_len =
    let rest = force_split_from fuel (drop (cut_at line max_len) line) max_len in
    if ltb max_len (length line)
    then take (cut_at line max_len) line ∷ rest
    else if ltb 0 (length line)
    then line ∷ []
    else []

-- forceSplit
unfoldable pub force_split : Bytes → ℕ → List Bytes
force_split line max_len = force_split_from (length line) line max_len

-- The builder with its length, and the chunks so far.
pub record Chunks : Type 0 where
  pub current : Bytes
  pub current_len : ℕ
  pub chunks : List Bytes

unfoldable pub push : Chunks → Chunks
push s = record { current = []; current_len = 0; chunks = s.chunks ++ s.current ∷ [] }

-- `if currentLen > 0`, the builder becomes a chunk: `flush`, and its copies in the other functions.
unfoldable pub flush : Chunks → Chunks
unfolding push
flush s = if ltb 0 s.current_len then push s else s

-- A newline if the builder is not empty, and the piece.
unfoldable pub write : Bytes → Chunks → Chunks
write piece s =
    if ltb 0 s.current_len
    then record s {
      current = s.current ++ newline ∷ piece;
      current_len = s.current_len + 1 + length piece;
    }
    else record s { current = s.current ++ piece; current_len = s.current_len + length piece }

unfoldable pub split_off : Bytes → ℕ → Chunks → Chunks
split_off piece max_len s = record s { chunks = s.chunks ++ force_split piece max_len }

added : Bytes → Chunks → ℕ
added piece s = length piece + (if ltb 0 s.current_len then 1 else 0)

-- appendLine
unfoldable pub append_line : Bytes → ℕ → Chunks → Chunks
unfolding flush push write split_off added
append_line line max_len s =
    if ltb max_len (length line)
    then split_off line max_len (flush s)
    else write line (if ltb max_len (s.current_len + added line s) then push s else s)

-- appendPiece
unfoldable pub append_piece : Bytes → ℕ → Chunks → Chunks
unfolding flush push write split_off added
append_piece piece max_len s =
    if is_empty piece
    then append_line [] max_len s
    else let t = if ltb max_len (s.current_len + added piece s) then flush s else s in
      if leb (length piece) max_len then write piece t else split_off piece max_len t

-- The bytes of the white space that a text begins with, none if it begins with another character.
space_width : Bytes → ℕ
space_width [] = 0
space_width (a ∷ []) = if (leb 9 a && leb a 13) || (a == 32) then 1 else 0
space_width (a ∷ b ∷ []) =
    if (leb 9 a && leb a 13) || (a == 32)
    then 1
    else if (a == 194) && ((b == 133) || (b == 160))
    then 2
    else 0
space_width (a ∷ b ∷ c ∷ bytes) =
    if (leb 9 a && leb a 13) || (a == 32)
    then 1
    else if (a == 194) && ((b == 133) || (b == 160))
    then 2
    else if (a == 225) && (b == 154) && (c == 128)
        || (a == 226) && (b == 128) && (leb 128 c && leb c 138)
        || (a == 226) && (b == 128) && ((c == 168) || (c == 169) || (c == 175))
        || (a == 226) && (b == 129) && (c == 159)
        || (a == 227) && (b == 128) && (c == 128)
    then 3
    else 0

-- The white space at the start is skipped; `skip` counts the bytes of a character still to go.
trim_start : ℕ → Bytes → Bytes
unfolding space_width
trim_start skip [] = []
trim_start (suc skip) (b ∷ bytes) = trim_start skip bytes
trim_start zero (b ∷ bytes) =
    let rest = trim_start (space_width (b ∷ bytes) - 1) bytes in
    if space_width (b ∷ bytes) == 0 then b ∷ bytes else rest

has_fence : Bytes → Bool
has_fence (a ∷ b ∷ c ∷ bytes) = (a == 96) && (b == 96) && (c == 96)
has_fence _ = false

-- isFenceLine. Trimming the end does not change whether the text begins with three back quotes.
unfoldable pub is_fence_line : Bytes → Bool
unfolding trim_start has_fence
is_fence_line line = has_fence (trim_start 0 line)

-- findFenceEnd, counted from the line after the start.
unfoldable pub find_fence_end : List Bytes → Option ℕ
find_fence_end [] = none
find_fence_end (line ∷ lines) =
    let rest = find_fence_end lines in
    if is_fence_line line then some 0 else elim rest [ none ↦ none | some n ↦ some (suc n) ]

-- strings.Join(lines, "\n")
unfoldable pub join_lines : List Bytes → Bytes
join_lines [] = []
join_lines (line ∷ []) = line
join_lines (line ∷ next ∷ lines) = line ++ newline ∷ join_lines (next ∷ lines)

prepend : ℕ → List Bytes → List Bytes
prepend b [] = (b ∷ []) ∷ []
prepend b (line ∷ lines) = (b ∷ line) ∷ lines

-- strings.Split(text, "\n")
unfoldable pub split_lines : Bytes → List Bytes
unfolding prepend
split_lines [] = [] ∷ []
split_lines (b ∷ bytes) =
    let rest = split_lines bytes in if b == newline then [] ∷ rest else prepend b rest

-- What the loop does at a line, with the lines behind it: how many of these it takes along.
unfoldable pub at_line : Bool → ℕ → Bytes → List Bytes → Chunks → ℕ × Chunks
at_line preserve max_len line lines s =
    let plain : ℕ × Chunks = (0, append_line line max_len s) in
    if preserve && is_fence_line line
    then elim (find_fence_end lines) [
      | none ↦ plain
      | some n ↦
          let block = join_lines (line ∷ take (suc n) lines) in
          if leb (length block) max_len then (suc n, append_piece block max_len s) else plain
    ]
    else plain

-- The loop of `splitText` over the lines; `skip` lines are already taken.
unfoldable pub over_lines : Bool → ℕ → ℕ → List Bytes → Chunks → Chunks
unfolding at_line
over_lines preserve max_len skip [] s = s
over_lines preserve max_len (suc skip) (line ∷ lines) s = over_lines preserve max_len skip lines s
over_lines preserve max_len zero (line ∷ lines) s =
    let (skip, t) = at_line preserve max_len line lines s in
    over_lines preserve max_len skip lines t

-- splitText, of a positive maximal length.
unfoldable pub split_text : Bool → ℕ → Bytes → List Bytes
unfolding over_lines
split_text preserve max_len body =
    (flush (
      over_lines preserve max_len 0 (split_lines body)
        (record { current = []; current_len = 0; chunks = [] }))).chunks

-- newChunkMessage
abbrev pub new_chunk_message : OutboundMessage → OutboundMessage
new_chunk_message m = record m { blocks = [] }

-- The variables of `SplitMessage`.
pub record Parts : Type 0 where
  pub result : List OutboundMessage
  pub current : OutboundMessage
  pub current_text_len : ℕ
  pub has_text : Bool

-- `flush` of `SplitMessage`.
unfoldable pub flush_message : OutboundMessage → Parts → Parts
flush_message m s = if is_empty s.current.blocks then s else record {
  result = s.result ++ s.current ∷ [];
  current = new_chunk_message m;
  current_text_len = 0;
  has_text = false;
}

add_block : ContentBlock → Parts → Parts
add_block b s = record s { current = record s.current { blocks = s.current.blocks ++ b ∷ [] } }

unfoldable pub put_part : Bytes → Parts → Parts
unfolding add_block
put_part part s = record (add_block (new_text_block part) s) {
  current_text_len = s.current_text_len + (if s.has_text then 1 else 0) + length part;
  has_text = true;
}

-- One part of a text block.
unfoldable pub add_part : OutboundMessage → ℕ → Parts → Bytes → Parts
unfolding flush_message put_part
add_part m max_len s part = put_part part (
    if s.has_text && ltb max_len (s.current_text_len + (length part + 1))
    then flush_message m s
    else s)

unfoldable pub add_parts : OutboundMessage → ℕ → Parts → List Bytes → Parts
add_parts m max_len s [] = s
add_parts m max_len s (part ∷ parts) = add_parts m max_len (add_part m max_len s part) parts

unfoldable pub add_blocks : OutboundMessage → Bool → ℕ → Parts → List ContentBlock → Parts
unfolding add_parts add_block
add_blocks m preserve max_len s [] = s
add_blocks m preserve max_len s (b ∷ blocks) =
    add_blocks m preserve max_len
      (if is_text b.block_type
        then add_parts m max_len s (split_text preserve max_len b.body)
        else add_block b s)
      blocks

abbrev or_whole : OutboundMessage → List OutboundMessage → List OutboundMessage
or_whole m [] = m ∷ []
or_whole m (x ∷ xs) = x ∷ xs

-- SplitMessage, of a positive maximal length.
unfoldable pub split_at_length : OutboundMessage → Bool → ℕ → List OutboundMessage
unfolding add_blocks flush_message
split_at_length m preserve max_len =
    if leb (length (text_content m)) max_len
    then m ∷ []
    else or_whole m
        (flush_message m (
          add_blocks m preserve max_len
            (record {
              result = [];
              current = new_chunk_message m;
              current_text_len = 0;
              has_text = false;
            })
            m.blocks)).result

-- SplitMessage
unfoldable pub split_message : OutboundMessage → ChunkConfig → List OutboundMessage
split_message m cfg = elim cfg.max_length [
  | pos zero ↦ m ∷ []
  | pos (suc n) ↦ split_at_length m cfg.preserve_blocks (suc n)
  | negsuc n ↦ m ∷ []
]

-- ===== src/Channel/Chunking/Messages.antt =====
-- internal/channel/chunking.go: SplitMessage.
use mathlib.Core.List.{append-nil, append_assoc, map-append}
use sclaw.Prelude.{
  inl, inr, ℕ, zero, suc, ◌+◌, ◌≤◌, ◌<◌, ◌≡◌, refl, sym, ap, ◌∙◌, subst, ◌⊎◌, Bool, true, false,
  not, ◌&&◌, List, [], ◌∷◌, ◌++◌, ltb, leb, length, length-append, All, All-append, arith,
  Bool-cases, if◌then◌else◌, map, pos, negsuc,
}
use sclaw.Message.{
  Bytes, newline, is_empty, is_text, ContentBlock, new_text_block, OutboundMessage, text_from,
  text_content,
}
use sclaw.Channel.Chunking.{
  ChunkConfig, Parts, flush_message, add_block, add_part, put_part, add_parts, add_blocks, or_whole,
  new_chunk_message, split_at_length, split_message, split_text,
}
use sclaw.Channel.Chunking.Force.{Fits}
use sclaw.Channel.Chunking.Lines.{ink, ink_all, ink-concat, split_text-ink}

-- A message whose text is within the limit.
abbrev pub Within : ℕ → OutboundMessage → Type 0
Within max_len m = length (text_content m) ≤ max_len

-- What a message brings, in order: the bytes of its texts but line breaks, and its other blocks.
abbrev pub contents : List ContentBlock → List (ℕ ⊎ ContentBlock)
contents [] = []
contents (b ∷ blocks) =
    (if is_text b.block_type then map inl (ink b.body) else inr b ∷ []) ++ contents blocks

abbrev pub contents_all : List OutboundMessage → List (ℕ ⊎ ContentBlock)
contents_all [] = []
contents_all (m ∷ ms) = contents m.blocks ++ contents_all ms

contents-append : (xs ys : List ContentBlock) → contents (xs ++ ys) ≡ contents xs ++ contents ys
contents-append [] ys = refl
contents-append (b ∷ xs) ys =
    ap (λ r. (if is_text b.block_type then map inl (ink b.body) else inr b ∷ []) ++ r)
      (contents-append xs ys)
    ∙ sym (
        append_assoc (if is_text b.block_type then map inl (ink b.body) else inr b ∷ [])
          (contents xs) (contents ys))

contents_all-append :
    (xs ys : List OutboundMessage) → contents_all (xs ++ ys) ≡ contents_all xs ++ contents_all ys
contents_all-append [] ys = refl
contents_all-append (m ∷ xs) ys =
    ap (λ r. contents m.blocks ++ r) (contents_all-append xs ys)
    ∙ sym (append_assoc (contents m.blocks) (contents_all xs) (contents_all ys))

join_text : Bytes → ContentBlock → Bytes
join_text result b =
    if is_text b.block_type && not (is_empty b.body)
    then (if is_empty result then b.body else result ++ newline ∷ b.body)
    else result

text_from-append :
    (result : Bytes) (blocks : List ContentBlock) (b : ContentBlock)
    → text_from result (blocks ++ b ∷ []) ≡ join_text (text_from result blocks) b
unfolding text_from join_text
text_from-append result [] b = refl
text_from-append result (c ∷ blocks) b =
    text_from-append
      (if is_text c.block_type && not (is_empty c.body)
        then (if is_empty result then c.body else result ++ newline ∷ c.body)
        else result)
      blocks b

-- What holds of the variables in the loops.
record Fine (max_len : ℕ) (s : Parts) : Type 0 where
  counted : s.current_text_len ≡ length (text_content s.current)
  room : s.current_text_len ≤ max_len
  untexted : s.has_text ≡ false → s.current_text_len ≡ 0
  texted : s.has_text ≡ true → 0 < s.current_text_len
  sent : All (Within max_len) s.result

abbrev sent_contents : Parts → List (ℕ ⊎ ContentBlock)
sent_contents s = contents_all s.result ++ contents s.current.blocks

-- A step that keeps this and adds `x` to what the messages bring.
Brings : ℕ → List (ℕ ⊎ ContentBlock) → Parts → Parts → Type 0
Brings max_len x s t = Fine max_len t × (sent_contents t ≡ sent_contents s ++ x)

Brings-trans :
    (max_len : ℕ) (x y : List (ℕ ⊎ ContentBlock)) (s t u : Parts)
    → Brings max_len x s t
    → (Fine max_len t → Brings max_len y t u)
    → Brings max_len (x ++ y) s u
unfolding Brings
Brings-trans max_len x y s t u (f, e) go =
    let (g, d) = go f in (g, d ∙ ap (λ r. r ++ y) e ∙ append_assoc (sent_contents s) x y)

flush_message-Brings :
    (m : OutboundMessage) (max_len : ℕ) (s : Parts)
    → Fine max_len s
    → Brings max_len [] s (flush_message m s)
unfolding flush_message Brings
flush_message-Brings m max_len s f = elim (Bool-cases (is_empty s.current.blocks)) [
  | inl e ↦ rw (e, flush_message) (f, sym (append-nil (sent_contents s)))
  | inr e ↦
      rw (e, flush_message)
        (
          record {
            counted = unfold text_content text_from in refl;
            room = omega arith;
            untexted = λ _. refl;
            texted = λ h. cc;
            sent =
                All-append (Within max_len) s.result (s.current ∷ []) f.sent
                  (subst (λ n. n ≤ max_len) f.counted f.room, tt);
          },
          append-nil (contents_all (s.result ++ s.current ∷ []))
              ∙ contents_all-append s.result (s.current ∷ [])
              ∙ sym (append_assoc (contents_all s.result) (contents s.current.blocks) []),
        )
]

-- A block that is no text.
add_block-Brings :
    (max_len : ℕ) (b : ContentBlock) (s : Parts)
    → is_text b.block_type ≡ false
    → Fine max_len s
    → Brings max_len (inr b ∷ []) s (add_block b s)
unfolding add_block Brings text_content join_text
add_block-Brings max_len b s h f = (
  record {
    counted = f.counted ∙ ap length (sym same_text);
    room = f.room;
    untexted = f.untexted;
    texted = f.texted;
    sent = f.sent;
  },
  ap (λ r. contents_all s.result ++ r) (contents-append s.current.blocks (b ∷ []))
      ∙ sym (append_assoc (contents_all s.result) (contents s.current.blocks) (contents (b ∷ [])))
      ∙ ap (λ r. sent_contents s ++ r) other,
)
  where
    other : contents (b ∷ []) ≡ inr b ∷ []
    other = rw h refl

    same_text : text_from [] (s.current.blocks ++ b ∷ []) ≡ text_from [] s.current.blocks
    same_text = text_from-append [] s.current.blocks b ∙ ground (arith, h)

new_length :
    (text part : Bytes) (has_text : Bool) (n : ℕ)
    → 0 < length part
    → n ≡ length text
    → (has_text ≡ false → n ≡ 0)
    → (has_text ≡ true → 0 < n)
    → n + (if has_text then 1 else 0) + length part ≡ length (join_text text (new_text_block part))
unfolding join_text
new_length text [] has_text n p c u v = absurd (omega (arith, p))
new_length [] (b ∷ part) true n p c u v = absurd (omega (arith, c, v refl))
new_length (x ∷ text) (b ∷ part) false n p c u v = absurd (omega (arith, c, u refl))
new_length [] (b ∷ part) false n p c u v = omega (arith, c)
new_length (x ∷ text) (b ∷ part) true n p c u v =
    omega (arith, c, length-append text (newline ∷ b ∷ part))

-- A part that fits into the current message.
put_part-Brings :
    (max_len : ℕ) (part : Bytes) (t : Parts)
    → 0 < length part
    → t.current_text_len + (if t.has_text then 1 else 0) + length part ≤ max_len
    → Fine max_len t
    → Brings max_len (map inl (ink part)) t (put_part part t)
unfolding put_part add_block Brings text_content
put_part-Brings max_len part t p l f = (
  record {
    counted =
        new_length (text_content t.current) part t.has_text t.current_text_len p f.counted
          f.untexted f.texted
        ∙ ap length (sym (text_from-append [] t.current.blocks (new_text_block part)));
    room = l;
    untexted = λ h. cc;
    texted = λ h. omega (arith, p);
    sent = f.sent;
  },
  ap (λ r. contents_all t.result ++ r) (contents-append t.current.blocks (new_text_block part ∷ []))
      ∙ sym (
          append_assoc (contents_all t.result) (contents t.current.blocks)
            (contents (new_text_block part ∷ [])))
      ∙ ap (λ r. sent_contents t ++ r) (append-nil (map inl (ink part))),
)

flush_message-has_text :
    (m : OutboundMessage) (max_len : ℕ) (s : Parts)
    → Fine max_len s
    → (flush_message m s).has_text ≡ false
unfolding flush_message text_content text_from
flush_message-has_text m max_len s f = elim (Bool-cases (is_empty s.current.blocks)) [
  | inl e ↦ rw (e, flush_message) (untexted_now s.current.blocks e f.counted f.texted)
  | inr e ↦ rw (e, flush_message) refl
]
  where
    untexted_now :
        (blocks : List ContentBlock)
        → is_empty blocks ≡ true
        → s.current_text_len ≡ length (text_from [] blocks)
        → (s.has_text ≡ true → 0 < s.current_text_len)
        → s.has_text ≡ false
    untexted_now [] h c t = ground (arith, c, t)
    untexted_now (b ∷ blocks) h c t = cc

add_part-Brings :
    (m : OutboundMessage) (max_len : ℕ) (s : Parts) (part : Bytes)
    → Fits max_len part
    → Fine max_len s
    → Brings max_len (map inl (ink part)) s (add_part m max_len s part)
unfolding add_part
add_part-Brings m max_len s part h f =
    elim (Bool-cases (s.has_text && ltb max_len (s.current_text_len + (length part + 1)))) [
      | inl e ↦
          rw (e, add_part)
            (Brings-trans max_len [] (map inl (ink part)) s (flush_message m s)
              (put_part part (flush_message m s)) (flush_message-Brings m max_len s f)
              (λ g.
                put_part-Brings max_len part (flush_message m s) h.0
                  (rw (flush_message-has_text m max_len s f)
                    (omega (arith, h.1, g.untexted (flush_message-has_text m max_len s f))))
                  g))
      | inr e ↦
          rw (e, add_part)
            (put_part-Brings max_len part s h.0 (room_left s.has_text e f.untexted) f)
    ]
  where
    room_left :
        (b : Bool)
        → (b && ltb max_len (s.current_text_len + (length part + 1))) ≡ false
        → (b ≡ false → s.current_text_len ≡ 0)
        → s.current_text_len + (if b then 1 else 0) + length part ≤ max_len
    room_left true e u = ground (arith, e)
    room_left false e u = omega (arith, h.1, u refl)

add_parts-Brings :
    (m : OutboundMessage) (max_len : ℕ) (s : Parts) (parts : List Bytes)
    → All (Fits max_len) parts
    → Fine max_len s
    → Brings max_len (map inl (ink_all parts)) s (add_parts m max_len s parts)
unfolding add_parts
add_parts-Brings m max_len s [] h f = unfold Brings in (f, sym (append-nil (sent_contents s)))
add_parts-Brings m max_len s (part ∷ parts) h f =
    subst (λ x. Brings max_len x s (add_parts m max_len (add_part m max_len s part) parts))
      (sym (map-append inl (ink part) (ink_all parts)))
      (Brings-trans max_len (map inl (ink part)) (map inl (ink_all parts)) s
        (add_part m max_len s part) (add_parts m max_len (add_part m max_len s part) parts)
        (add_part-Brings m max_len s part h.0 f)
        (add_parts-Brings m max_len (add_part m max_len s part) parts h.1))

add_blocks-Brings :
    (m : OutboundMessage) (preserve : Bool) (max_len : ℕ) (s : Parts) (blocks : List ContentBlock)
    → 0 < max_len
    → Fine max_len s
    → Brings max_len (contents blocks) s (add_blocks m preserve max_len s blocks)
unfolding add_blocks
add_blocks-Brings m preserve max_len s [] h f =
    unfold Brings in (f, sym (append-nil (sent_contents s)))
add_blocks-Brings m preserve max_len s (b ∷ blocks) h f = elim (Bool-cases (is_text b.block_type)) [
  | inl e ↦
      rw (e, add_blocks)
        (Brings-trans max_len (map inl (ink b.body)) (contents blocks) s
          (add_parts m max_len s (split_text preserve max_len b.body))
          (add_blocks m preserve max_len
            (add_parts m max_len s (split_text preserve max_len b.body)) blocks)
          (let (fits, inked) = split_text-ink preserve max_len b.body h in
            subst
              (λ x.
                Brings max_len (map inl x) s
                  (add_parts m max_len s (split_text preserve max_len b.body)))
              (sym (ink-concat (split_text preserve max_len b.body)) ∙ inked)
              (add_parts-Brings m max_len s (split_text preserve max_len b.body) fits f))
          (add_blocks-Brings m preserve max_len
            (add_parts m max_len s (split_text preserve max_len b.body)) blocks h))
  | inr e ↦
      rw (e, add_blocks)
        (Brings-trans max_len (inr b ∷ []) (contents blocks) s (add_block b s)
          (add_blocks m preserve max_len (add_block b s) blocks) (add_block-Brings max_len b s e f)
          (add_blocks-Brings m preserve max_len (add_block b s) blocks h))
]

or_whole-cases :
    (m : OutboundMessage) (ms : List OutboundMessage)
    → (ms ≡ []) × (or_whole m ms ≡ m ∷ []) ⊎ (or_whole m ms ≡ ms)
or_whole-cases m [] = inl (refl, refl)
or_whole-cases m (x ∷ ms) = inr refl

flush_message-blocks : (m : OutboundMessage) (s : Parts) → (flush_message m s).current.blocks ≡ []
unfolding flush_message
flush_message-blocks m s = no_blocks s.current.blocks refl
  where
    no_blocks :
        (blocks : List ContentBlock)
        → blocks ≡ s.current.blocks
        → (if is_empty blocks then s else record {
          result = s.result ++ s.current ∷ [];
          current = new_chunk_message m;
          current_text_len = 0;
          has_text = false;
        }).current.blocks
          ≡ []
    no_blocks [] e = sym e
    no_blocks (b ∷ blocks) e = refl

abbrev start : OutboundMessage → Parts
start m = record {
  result = [];
  current = new_chunk_message m;
  current_text_len = 0;
  has_text = false;
}

start-Fine : (m : OutboundMessage) (max_len : ℕ) → Fine max_len (start m)
start-Fine m max_len = record {
  counted = unfold text_content text_from in refl;
  room = omega arith;
  untexted = λ _. refl;
  texted = λ h. cc;
  sent = tt;
}

-- What the loops and the last flush leave.
flushed : OutboundMessage → Bool → ℕ → Parts
flushed m preserve max_len = flush_message m (add_blocks m preserve max_len (start m) m.blocks)

flushed-Brings :
    (m : OutboundMessage) (preserve : Bool) (max_len : ℕ)
    → 0 < max_len
    → All (Within max_len) (flushed m preserve max_len).result
      × (contents_all (flushed m preserve max_len).result ≡ contents m.blocks)
unfolding flushed Brings
flushed-Brings m preserve max_len h =
    let s : Parts = add_blocks m preserve max_len (start m) m.blocks in
    let (f, e) = add_blocks-Brings m preserve max_len (start m) m.blocks h (start-Fine m max_len) in
    let (g, d) = flush_message-Brings m max_len s f in
    (
      g.sent,
      sym (append-nil (contents_all (flush_message m s).result))
          ∙ ap (λ x. contents_all (flush_message m s).result ++ contents x)
              (sym (flush_message-blocks m s))
          ∙ d
          ∙ append-nil (sent_contents s)
          ∙ e,
    )

-- SplitMessage loses, doubles and reorders nothing: its messages bring, in order, the bytes of the
-- texts of the message, line breaks aside, and its other blocks, whatever the configured length.
pub split_message-contents :
    (m : OutboundMessage) (cfg : ChunkConfig)
    → contents_all (split_message m cfg) ≡ contents m.blocks
unfolding split_message split_at_length flushed
split_message-contents m cfg =
    elim cfg.max_length
      as (λ x. contents_all (split_message m (record cfg { max_length = x })) ≡ contents m.blocks) [
        | pos zero ↦ append-nil (contents m.blocks)
        | negsuc n ↦ append-nil (contents m.blocks)
        | pos (suc n) ↦ elim (Bool-cases (leb (length (text_content m)) (suc n))) [
          | inl e ↦ rw (e, split_at_length) (append-nil (contents m.blocks))
          | inr e ↦
              rw (e, split_at_length)
                (elim (or_whole-cases m (flushed m cfg.preserve_blocks (suc n)).result) [
                  | inl (_, w) ↦ ap contents_all w ∙ append-nil (contents m.blocks)
                  | inr w ↦
                      ap contents_all w
                      ∙ (flushed-Brings m cfg.preserve_blocks (suc n) (omega arith)).1
                ])
        ]
      ]

-- For a positive length, every message that SplitMessage returns has a text within that length,
-- unless the message is too long and holds nothing but line breaks.
pub split_message-Within :
    (m : OutboundMessage) (preserve : Bool) (n : ℕ)
    → All
        (Within (suc n))
        (split_message m (record { max_length = pos (suc n); preserve_blocks = preserve }))
      ⊎ (contents m.blocks ≡ [])
unfolding split_message split_at_length flushed
split_message-Within m preserve n = elim (Bool-cases (leb (length (text_content m)) (suc n))) [
  | inl e ↦ rw (e, split_at_length) (inl (ground (arith, e), tt))
  | inr e ↦
      rw (e, split_at_length)
        (elim (or_whole-cases m (flushed m preserve (suc n)).result) [
          | inl (none_left, w) ↦
              inr (
                sym (flushed-Brings m preserve (suc n) (omega arith)).1 ∙ ap contents_all none_left)
          | inr w ↦ inl (
              subst (λ r. All (Within (suc n)) r) (sym w)
                (flushed-Brings m preserve (suc n) (omega arith)).0)
        ])
]

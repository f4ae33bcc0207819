-- ===== src/Channel/Chunking/Lines.antt =====
-- internal/channel/chunking.go: splitText.
use mathlib.Core.List.{append-nil, append_assoc}
use sclaw.Prelude.{
  inl, inr, ℕ, zero, suc, ◌+◌, ◌≤◌, ◌<◌, ◌≡◌, refl, sym, ap, ◌∙◌, Bool, true, false, ◌&&◌, List, [],
  ◌∷◌, ◌++◌, ltb, leb, ◌==◌, length, take, drop, length-append, take-append-drop, All, All-append,
  arith, Bool-cases, Option-cases, if◌then◌else◌, ltb→lt, subst,
}
use sclaw.Message.{Bytes, newline}
use sclaw.Channel.Chunking.{
  Chunks, push, flush, write, split_off, added, append_line, append_piece, find_fence_end,
  is_fence_line, join_lines, split_lines, prepend, at_line, over_lines, split_text, force_split,
}
use sclaw.Channel.Chunking.Force.{concat, Fits, force_split-concat}

-- A text without its line breaks.
abbrev pub ink : Bytes → Bytes
ink [] = []
ink (b ∷ bytes) = if b == newline then ink bytes else b ∷ ink bytes

abbrev pub ink_all : List Bytes → Bytes
ink_all [] = []
ink_all (x ∷ xs) = ink x ++ ink_all xs

ink-append : (x y : Bytes) → ink (x ++ y) ≡ ink x ++ ink y
ink-append [] y = refl
ink-append (b ∷ x) y = ground (arith, ink-append x y)

ink_all-append : (xs ys : List Bytes) → ink_all (xs ++ ys) ≡ ink_all xs ++ ink_all ys
ink_all-append [] ys = refl
ink_all-append (x ∷ xs) ys =
    ap (λ r. ink x ++ r) (ink_all-append xs ys)
    ∙ sym (append_assoc (ink x) (ink_all xs) (ink_all ys))

pub ink-concat : (xs : List Bytes) → ink (concat xs) ≡ ink_all xs
ink-concat [] = refl
ink-concat (x ∷ xs) = ink-append x (concat xs) ∙ ap (λ r. ink x ++ r) (ink-concat xs)

ink-prepend :
    (b : ℕ) (lines : List Bytes)
    → (b == newline) ≡ false
    → ink_all (prepend b lines) ≡ b ∷ ink_all lines
unfolding prepend
ink-prepend b [] h = ground arith
ink-prepend b (line ∷ lines) h = ground arith

ink-split_lines : (body : Bytes) → ink_all (split_lines body) ≡ ink body
unfolding split_lines
ink-split_lines [] = refl
ink-split_lines (b ∷ body) = ground (arith, ink-split_lines body, ink-prepend b (split_lines body))

ink-join_lines : (lines : List Bytes) → ink (join_lines lines) ≡ ink_all lines
unfolding join_lines
ink-join_lines [] = refl
ink-join_lines (line ∷ []) = sym (append-nil (ink line))
ink-join_lines (line ∷ next ∷ lines) =
    ink-append line (newline ∷ join_lines (next ∷ lines))
    ∙ ap (λ r. ink line ++ r) (ink-join_lines (next ∷ lines))

-- What holds of the builder and the chunks.
pub record Good (max_len : ℕ) (s : Chunks) : Type 0 where
  pub measured : s.current_len ≡ length s.current
  pub room : s.current_len ≤ max_len
  pub chunked : All (Fits max_len) s.chunks

-- The text that has been taken in.
abbrev pub written : Chunks → Bytes
written s = ink_all s.chunks ++ ink s.current

written-more :
    (cs : List Bytes) (x y : Bytes) → ink_all cs ++ ink (x ++ y) ≡ (ink_all cs ++ ink x) ++ ink y
written-more cs x y =
    ap (λ r. ink_all cs ++ r) (ink-append x y) ∙ sym (append_assoc (ink_all cs) (ink x) (ink y))

-- A step that keeps the builder good and adds `x` to the text.
Adds : ℕ → Bytes → Chunks → Chunks → Type 0
Adds max_len x s t = Good max_len t × (written t ≡ written s ++ x)

push-Adds :
    (max_len : ℕ) (s : Chunks) → 0 < s.current_len → Good max_len s → Adds max_len [] s (push s)
unfolding push Adds
push-Adds max_len s h g = (
  record {
    measured = refl;
    room = omega arith;
    chunked =
        All-append (Fits max_len) s.chunks (s.current ∷ []) g.chunked
          ((omega (arith, h, g.measured), omega (arith, g.room, g.measured)), tt);
  },
  append-nil (ink_all (s.chunks ++ s.current ∷ []))
      ∙ ink_all-append s.chunks (s.current ∷ [])
      ∙ sym (append_assoc (ink_all s.chunks) (ink s.current) []),
)

write-Adds :
    (piece : Bytes) (max_len : ℕ) (s : Chunks)
    → s.current_len + added piece s ≤ max_len
    → Good max_len s
    → Adds max_len (ink piece) s (write piece s)
unfolding write added Adds
write-Adds piece max_len s h g = elim (Bool-cases (ltb 0 s.current_len)) [
  | inl b ↦
      rw (b, write)
        (
          record {
            measured = omega (arith, g.measured, length-append s.current (newline ∷ piece));
            room = ground (arith, h, b);
            chunked = g.chunked;
          },
          written-more s.chunks s.current (newline ∷ piece),
        )
  | inr b ↦
      rw (b, write)
        (
          record {
            measured = omega (arith, g.measured, length-append s.current piece);
            room = ground (arith, h, b);
            chunked = g.chunked;
          },
          written-more s.chunks s.current piece,
        )
]

split_off-Adds :
    (piece : Bytes) (max_len : ℕ) (s : Chunks)
    → 0 < max_len
    → s.current_len ≡ 0
    → Good max_len s
    → Adds max_len (ink piece) s (split_off piece max_len s)
unfolding split_off Adds
split_off-Adds piece max_len s h z g = (
  record {
    measured = g.measured;
    room = g.room;
    chunked =
        All-append (Fits max_len) s.chunks (force_split piece max_len) g.chunked
          (force_split-concat piece max_len h).1;
  },
  rw (no_bytes s.current (omega (arith, z, g.measured))) (
      append-nil (ink_all (s.chunks ++ force_split piece max_len))
      ∙ ink_all-append s.chunks (force_split piece max_len)
      ∙ ap (λ r. ink_all s.chunks ++ r)
          (sym (ink-concat (force_split piece max_len))
            ∙ ap ink (force_split-concat piece max_len h).0)
      ∙ ap (λ r. r ++ ink piece) (sym (append-nil (ink_all s.chunks)))),
)
  where
    no_bytes : (x : Bytes) → length x ≡ 0 → x ≡ []
    no_bytes [] e = refl
    no_bytes (b ∷ x) e = ground arith

-- One step and then another.
Adds-trans :
    (max_len : ℕ) (x y : Bytes) (s t u : Chunks)
    → Adds max_len x s t
    → (Good max_len t → Adds max_len y t u)
    → Adds max_len (x ++ y) s u
unfolding Adds
Adds-trans max_len x y s t u a f =
    ((f a.0).0, (f a.0).1 ∙ ap (λ r. r ++ y) a.1 ∙ append_assoc (written s) x y)

flush-Adds :
    (max_len : ℕ) (s : Chunks)
    → Good max_len s
    → Adds max_len [] s (flush s) × ((flush s).current_len ≡ 0)
unfolding flush Adds
flush-Adds max_len s g = elim (Bool-cases (ltb 0 s.current_len)) [
  | inl b ↦ rw (b, flush) (push-Adds max_len s (ltb→lt 0 s.current_len b) g, unfold push in refl)
  | inr b ↦ rw (b, flush) ((g, sym (append-nil (written s))), ground arith)
]

-- Room for a piece within the limit is made by `push`, which then is `flush`.
room_push :
    (piece : Bytes) (max_len : ℕ) (s : Chunks)
    → length piece ≤ max_len
    → Good max_len s
    → let t = if ltb max_len (s.current_len + added piece s) then push s else s in
      Adds max_len [] s t × (t.current_len + added piece t ≤ max_len)
unfolding added
room_push piece max_len s h g = elim (Bool-cases (ltb max_len (s.current_len + added piece s))) [
  | inl b ↦ rw b (push-Adds max_len s (ground (arith, b)) g, unfold push in omega (arith, h))
  | inr b ↦ rw b (unfold Adds in (g, sym (append-nil (written s))), ground (arith, b))
]

push-eq-flush :
    (piece : Bytes) (max_len : ℕ) (s : Chunks)
    → length piece ≤ max_len
    → ltb max_len (s.current_len + added piece s) ≡ true
    → flush s ≡ push s
unfolding flush added
push-eq-flush piece max_len s h e = ground (arith, e)

append_line-Adds :
    (line : Bytes) (max_len : ℕ) (s : Chunks)
    → 0 < max_len
    → Good max_len s
    → Adds max_len (ink line) s (append_line line max_len s)
unfolding append_line
append_line-Adds line max_len s h g = elim (Bool-cases (ltb max_len (length line))) [
  | inl long ↦
      let (a, z) = flush-Adds max_len s g in
      rw (long, append_line)
        (Adds-trans max_len [] (ink line) s (flush s) (split_off line max_len (flush s)) a
          (λ b. split_off-Adds line max_len (flush s) h z b))
  | inr short ↦
      let (a, r) = room_push line max_len s (ground (arith, short)) g in
      rw (short, append_line)
        (Adds-trans max_len [] (ink line) s
          (if ltb max_len (s.current_len + added line s) then push s else s)
          (write line (if ltb max_len (s.current_len + added line s) then push s else s)) a
          (λ b.
            write-Adds line max_len
              (if ltb max_len (s.current_len + added line s) then push s else s) r b))
]

-- A piece within the limit is taken like a line.
append_piece-eq-append_line :
    (piece : Bytes) (max_len : ℕ) (s : Chunks)
    → length piece ≤ max_len
    → append_piece piece max_len s ≡ append_line piece max_len s
unfolding append_piece append_line
append_piece-eq-append_line [] max_len s l = refl
append_piece-eq-append_line (b ∷ piece) max_len s l =
    ground (arith, push-eq-flush (b ∷ piece) max_len s l)

append_piece-Adds :
    (piece : Bytes) (max_len : ℕ) (s : Chunks)
    → 0 < max_len
    → length piece ≤ max_len
    → Good max_len s
    → Adds max_len (ink piece) s (append_piece piece max_len s)
append_piece-Adds piece max_len s h l g =
    subst (λ t. Adds max_len (ink piece) s t) (sym (append_piece-eq-append_line piece max_len s l))
      (append_line-Adds piece max_len s h g)

-- What one turn of the loop adds: the line, and the lines that it takes along.
at_line-Adds :
    (preserve : Bool) (max_len : ℕ) (line : Bytes) (lines : List Bytes) (s : Chunks)
    → 0 < max_len
    → Good max_len s
    → Adds max_len
        (ink_all (line ∷ take (at_line preserve max_len line lines s).0 lines))
        s
        (at_line preserve max_len line lines s).1
unfolding at_line
at_line-Adds preserve max_len line lines s h g =
    elim (Bool-cases (preserve && is_fence_line line)) [
      | inl fence ↦ elim (Option-cases (find_fence_end lines)) [
        | inl e ↦ rw (fence, at_line) (rw (e, at_line) plain)
        | inr (n, e) ↦
            elim (Bool-cases (leb (length (join_lines (line ∷ take (suc n) lines))) max_len)) [
              | inl fits ↦
                  rw (fence, at_line)
                    (rw (e, at_line)
                      (rw (fits, at_line)
                        (subst
                          (λ x.
                            Adds max_len x s
                              (append_piece (join_lines (line ∷ take (suc n) lines)) max_len s))
                          (ink-join_lines (line ∷ take (suc n) lines))
                          (append_piece-Adds (join_lines (line ∷ take (suc n) lines)) max_len s h
                            (ground (arith, fits)) g))))
              | inr over ↦ rw (fence, at_line) (rw (e, at_line) (rw (over, at_line) plain))
            ]
      ]
      | inr no_fence ↦ rw (no_fence, at_line) plain
    ]
  where
    plain : Adds max_len (ink line ++ []) s (append_line line max_len s)
    plain =
        subst (λ x. Adds max_len x s (append_line line max_len s)) (sym (append-nil (ink line)))
          (append_line-Adds line max_len s h g)

over_lines-skip :
    (preserve : Bool) (max_len n : ℕ) (lines : List Bytes) (s : Chunks)
    → over_lines preserve max_len n lines s ≡ over_lines preserve max_len 0 (drop n lines) s
unfolding over_lines
over_lines-skip preserve max_len zero lines s = refl
over_lines-skip preserve max_len (suc n) [] s = refl
over_lines-skip preserve max_len (suc n) (line ∷ lines) s =
    over_lines-skip preserve max_len n lines s

over_lines-Adds :
    (preserve : Bool) (max_len skip : ℕ) (lines : List Bytes) (s : Chunks)
    → 0 < max_len
    → Good max_len s
    → Adds max_len (ink_all (drop skip lines)) s (over_lines preserve max_len skip lines s)
unfolding over_lines
over_lines-Adds preserve max_len zero [] s h g = unfold Adds in (g, sym (append-nil (written s)))
over_lines-Adds preserve max_len (suc skip) [] s h g =
    unfold Adds in (g, sym (append-nil (written s)))
over_lines-Adds preserve max_len (suc skip) (line ∷ lines) s h g =
    over_lines-Adds preserve max_len skip lines s h g
over_lines-Adds preserve max_len zero (line ∷ lines) s h g =
    subst (λ x. Adds max_len x s (over_lines preserve max_len r.0 lines r.1)) parts
      (Adds-trans max_len (ink_all (line ∷ take r.0 lines)) (ink_all (drop r.0 lines)) s r.1
        (over_lines preserve max_len r.0 lines r.1) (at_line-Adds preserve max_len line lines s h g)
        (over_lines-Adds preserve max_len r.0 lines r.1 h))
  where
    r : ℕ × Chunks
    r = at_line preserve max_len line lines s

    parts : ink_all (line ∷ take r.0 lines) ++ ink_all (drop r.0 lines) ≡ ink_all (line ∷ lines)
    parts =
        sym (ink_all-append (line ∷ take r.0 lines) (drop r.0 lines))
        ∙ ap (λ x. ink line ++ ink_all x) (take-append-drop r.0 lines)

no_chunks-Good :
    (max_len : ℕ) → Good max_len (record { current = []; current_len = 0; chunks = [] })
no_chunks-Good max_len = record { measured = refl; room = omega arith; chunked = tt }

length-zero : (x : Bytes) → length x ≡ 0 → x ≡ []
length-zero [] e = refl
length-zero (b ∷ x) e = absurd (omega (arith, e))

-- Every chunk of a text is within the limit and not empty, and the chunks hold the whole text in
-- order: apart from line breaks, at which a text is split, no byte is lost, doubled or moved. This is
-- so with code blocks kept together and without.
pub split_text-ink :
    (preserve : Bool) (max_len : ℕ) (body : Bytes)
    → 0 < max_len
    → All (Fits max_len) (split_text preserve max_len body)
      × (ink (concat (split_text preserve max_len body)) ≡ ink body)
unfolding split_text Adds
split_text-ink preserve max_len body h =
    let s : Chunks =
      over_lines preserve max_len 0 (split_lines body)
        (record { current = []; current_len = 0; chunks = [] }) in
    let a =
      over_lines-Adds preserve max_len 0 (split_lines body)
        (record { current = []; current_len = 0; chunks = [] }) h (no_chunks-Good max_len) in
    let (f, z) = flush-Adds max_len s a.0 in
    let e : (flush s).current ≡ [] =
      length-zero (flush s).current (omega (arith, f.0.measured, z)) in
    (
      f.0.chunked,
      ink-concat (flush s).chunks
          ∙ sym (append-nil (ink_all (flush s).chunks))
          ∙ ap (λ x. ink_all (flush s).chunks ++ ink x) (sym e)
          ∙ f.1
          ∙ append-nil (written s)
          ∙ a.1
          ∙ ink-split_lines body,
    )

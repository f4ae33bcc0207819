-- ===== src/Channel/Chunking/Force.antt =====
-- internal/channel/chunking.go: forceSplit.
use mathlib.Core.List.{append-nil}
use sclaw.Prelude.{
  inl, inr, ℕ, zero, suc, ◌≤◌, ◌<◌, ◌≡◌, refl, ap, ◌∙◌, false, List, [], ◌∷◌, ◌++◌, ltb, length,
  take, drop, length-take, length-drop, take-append-drop, All, ltb→lt, arith, Bool-cases,
}
use sclaw.Message.{Bytes}
use sclaw.Channel.Chunking.{cut_back, cut_at, force_split_from, force_split}

abbrev pub concat : List Bytes → Bytes
concat [] = []
concat (x ∷ xs) = x ++ concat xs

-- A chunk is not empty and within the maximal length.
abbrev pub Fits : ℕ → Bytes → Type 0
Fits max_len chunk = (0 < length chunk) × (length chunk ≤ max_len)

cut_back-le : (line : Bytes) (n : ℕ) → cut_back line n ≤ n
unfolding cut_back
cut_back-le line zero = omega arith
cut_back-le line (suc n) = ground (arith, cut_back-le line n)

cut_at_bounds :
    (line : Bytes) (max_len : ℕ)
    → 0 < max_len
    → (0 < cut_at line max_len) × (cut_at line max_len ≤ max_len)
unfolding cut_at
cut_at_bounds line max_len h = ground (arith, cut_back-le line max_len)

force_split_from_lem :
    (fuel : ℕ) (line : Bytes) (max_len : ℕ)
    → 0 < max_len
    → length line ≤ fuel
    → (concat (force_split_from fuel line max_len) ≡ line)
      × All (Fits max_len) (force_split_from fuel line max_len)
unfolding force_split_from
force_split_from_lem zero [] max_len h e = (refl, tt)
force_split_from_lem zero (b ∷ line) max_len h e = absurd (no e)
  where
    no : {n : ℕ} → suc n ≤ 0 → ⊥
    no e = omega arith
force_split_from_lem (suc fuel) line max_len h e = elim (Bool-cases (ltb max_len (length line))) [
  | inl long ↦
      let cut = cut_at_bounds line max_len h in
      let rest = force_split_from_lem fuel (drop (cut_at line max_len) line) max_len h (
        omega (
          arith,
          e,
          cut.0,
          length-drop (cut_at line max_len) line,
          ltb→lt max_len (length line) long,
        )) in
      rw (long, force_split_from)
        (
          ap (λ r. take (cut_at line max_len) line ++ r) rest.0
              ∙ take-append-drop (cut_at line max_len) line,
          (
            (
              omega (
                arith,
                cut.0,
                cut.1,
                length-take (cut_at line max_len) line,
                ltb→lt max_len (length line) long,
              ),
              omega (
                arith,
                cut.0,
                cut.1,
                length-take (cut_at line max_len) line,
                ltb→lt max_len (length line) long,
              ),
            ),
            rest.1,
          ),
        )
  | inr short ↦
      rw (short, force_split_from)
        (elim (Bool-cases (ltb 0 (length line))) [
          | inl some_left ↦ rw some_left (append-nil line, ((ground arith, ground arith), tt))
          | inr nothing ↦ rw nothing (empty line nothing, tt)
        ])
]
  where
    empty : (line : Bytes) → ltb 0 (length line) ≡ false → [] ≡ line
    empty [] e = refl
    empty (b ∷ line) e = ground arith

-- Nothing of a long line is lost or changed when it is cut, and every part is within the limit.
pub force_split-concat :
    (line : Bytes) (max_len : ℕ)
    → 0 < max_len
    → (concat (force_split line max_len) ≡ line) × All (Fits max_len) (force_split line max_len)
unfolding force_split
force_split-concat line max_len h = force_split_from_lem (length line) line max_len h (omega arith)

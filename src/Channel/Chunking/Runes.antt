-- ===== src/Channel/Chunking/Runes.antt =====
-- internal/channel/chunking.go: where forceSplit cuts a text in UTF-8.
use sclaw.Prelude.{
  inl, inr, ℕ, zero, suc, ◌+◌, ◌-◌, ◌≤◌, ◌<◌, ◌≡◌, refl, ap, ◌∙◌, ◌⊎◌, Bool, true, false, ◌||◌,
  Option, none, some, List, [], ◌∷◌, ltb, length, get_elem?, take, drop, length-drop, All, arith,
  Bool-cases, ltb→lt,
}
use sclaw.Message.{Bytes}
use sclaw.Channel.Chunking.{cut_back, cut_at, force_split_from, force_split, starts_at, rune_start}

-- A character in UTF-8 has at most four bytes: of any four in a row one begins a character.
abbrev pub Runes : Bytes → Type 0
Runes line =
    (i : ℕ)
    → i + 4 ≤ length line
    → (starts_at line i
        || (starts_at line (i + 1) || (starts_at line (i + 2) || starts_at line (i + 3))))
      ≡ true

cut_back_found :
    (line : Bytes) (n i : ℕ)
    → 0 < i
    → i ≤ n
    → starts_at line i ≡ true
    → (0 < cut_back line n) × (starts_at line (cut_back line n) ≡ true)
unfolding cut_back
cut_back_found line zero i h l e = absurd (no h l)
  where
    no : {i : ℕ} → 0 < i → i ≤ 0 → ⊥
    no h l = omega arith
cut_back_found line (suc n) i h l e = elim (Bool-cases (starts_at line (suc n))) [
  | inl b ↦ rw (b, cut_back) (omega arith, b)
  | inr b ↦ rw (b, cut_back) (cut_back_found line n i h (smaller b) e)
]
  where
    smaller : starts_at line (suc n) ≡ false → i ≤ n
    smaller b = ground arith

or_cases :
    (a b c d : Bool)
    → (a || (b || (c || d))) ≡ true
    → (a ≡ true) ⊎ ((b ≡ true) ⊎ ((c ≡ true) ⊎ (d ≡ true)))
or_cases a b c d h = ground arith

cut_at-start :
    (line : Bytes) (max_len : ℕ)
    → 4 ≤ max_len
    → max_len < length line
    → Runes line
    → (0 < cut_at line max_len) × (starts_at line (cut_at line max_len) ≡ true)
unfolding cut_at
cut_at-start line max_len h l r =
    elim (or_cases (starts_at line i) (starts_at line (i + 1)) (starts_at line (i + 2))
      (starts_at line (i + 3)) (r i (omega arith))) [
        | inl a ↦ found i (omega arith) (omega arith) a
        | inr (inl b) ↦ found (i + 1) (omega arith) (omega arith) b
        | inr (inr (inl c)) ↦ found (i + 2) (omega arith) (omega arith) c
        | inr (inr (inr d)) ↦ found (i + 3) (omega arith) (omega arith) d
      ]
  where
    i : ℕ
    i = max_len - 3

    shown :
        (0 < cut_back line max_len) × (starts_at line (cut_back line max_len) ≡ true)
        → (0 < cut_at line max_len) × (starts_at line (cut_at line max_len) ≡ true)
    shown (p, q) = ground (arith, p, q)

    found :
        (j : ℕ)
        → 0 < j
        → j ≤ max_len
        → starts_at line j ≡ true
        → (0 < cut_at line max_len) × (starts_at line (cut_at line max_len) ≡ true)
    found j a b e = shown (cut_back_found line max_len j a b e)

get_elem?-drop :
    {A : Type 0} (n i : ℕ) (xs : List A) → get_elem? (drop n xs) i ≡ get_elem? xs (n + i)
get_elem?-drop zero i xs = ap (get_elem? xs) (the_same i)
  where
    the_same : (i : ℕ) → i ≡ 0 + i
    the_same i = omega arith
get_elem?-drop (suc n) i [] = refl
get_elem?-drop (suc n) i (x ∷ xs) = get_elem?-drop n i xs ∙ ap (get_elem? (x ∷ xs)) (shifted n i)
  where
    shifted : (n i : ℕ) → suc (n + i) ≡ suc n + i
    shifted n i = omega arith

starts_at-drop : (n i : ℕ) (line : Bytes) → starts_at (drop n line) i ≡ starts_at line (n + i)
starts_at-drop n i line =
    ap (λ (o : Option ℕ). elim o [ none ↦ true | some b ↦ rune_start b ]) (get_elem?-drop n i line)

starts_at-take : (n : ℕ) (line : Bytes) → 0 < n → starts_at (take n line) 0 ≡ starts_at line 0
starts_at-take zero line h = elim h [ ]
starts_at-take (suc n) [] h = refl
starts_at-take (suc n) (b ∷ line) h = refl

Runes-drop : (n : ℕ) (line : Bytes) → Runes line → Runes (drop n line)
Runes-drop n line r i h =
    let e1 : n + (i + 1) ≡ n + i + 1 = omega arith in
    let e2 : n + (i + 2) ≡ n + i + 2 = omega arith in
    let e3 : n + (i + 3) ≡ n + i + 3 = omega arith in
    rw (starts_at-drop n i line) (
      rw (starts_at-drop n (i + 1) line) (
        rw (starts_at-drop n (i + 2) line) (
          rw (starts_at-drop n (i + 3) line)
            (rw e1 (rw e2 (rw e3 (r (n + i) (omega (arith, h, length-drop n line)))))))))

Begins : List Bytes → Type 0
Begins parts = All (λ (p : Bytes). starts_at p 0 ≡ true) parts

force_split_from-Begins :
    (fuel : ℕ) (line : Bytes) (max_len : ℕ)
    → 4 ≤ max_len
    → Runes line
    → starts_at line 0 ≡ true
    → Begins (force_split_from fuel line max_len)
unfolding force_split_from Begins
force_split_from-Begins zero line max_len h r e = tt
force_split_from-Begins (suc fuel) line max_len h r e =
    elim (Bool-cases (ltb max_len (length line))) [
      | inl long ↦
          let e0 : cut_at line max_len + 0 ≡ cut_at line max_len = omega arith in
          let cut = cut_at-start line max_len h (ltb→lt max_len (length line) long) r in
          rw (long, force_split_from)
            (
              starts_at-take (cut_at line max_len) line cut.0 ∙ e,
              force_split_from-Begins fuel (drop (cut_at line max_len) line) max_len h
                  (Runes-drop (cut_at line max_len) line r)
                  (starts_at-drop (cut_at line max_len) 0 line ∙ ap (starts_at line) e0 ∙ cut.1),
            )
      | inr short ↦
          rw (short, force_split_from)
            (elim (Bool-cases (ltb 0 (length line))) [
              | inl more ↦ rw more (e, tt)
              | inr nothing ↦ rw nothing tt
            ])
    ]

-- A text in UTF-8 is cut between characters, if a chunk can hold one: every part begins with one.
pub force_split-Begins :
    (line : Bytes) (max_len : ℕ)
    → 4 ≤ max_len
    → Runes line
    → starts_at line 0 ≡ true
    → All (λ (p : Bytes). starts_at p 0 ≡ true) (force_split line max_len)
unfolding force_split Begins
force_split-Begins line max_len h r e = force_split_from-Begins (length line) line max_len h r e

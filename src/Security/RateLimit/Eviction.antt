-- ===== src/Security/RateLimit/Eviction.antt =====
-- internal/security/ratelimit.go: what `evict` drops, and counts of events.
use sclaw.Prelude.{
  ℕ, zero, suc, ◌+◌, ◌≤◌, ◌<◌, ◌≡◌, refl, sym, ap, false, ◌&&◌, List, [], ◌∷◌, ◌++◌, ltb, leb,
  if◌then◌else◌, Bool-cases, inl, inr, ltb→lt, length, replicate, All, arith,
}
use sclaw.Security.RateLimit.{drop_before}

-- How many events lie between two times, the ends included.
unfoldable pub count_between : ℕ → ℕ → List ℕ → ℕ
count_between from to [] = 0
count_between from to (e ∷ es) =
    let rest = count_between from to es in if leb from e && leb e to then suc rest else rest

pub count_between-append :
    (from to : ℕ) (xs ys : List ℕ)
    → count_between from to (xs ++ ys) ≡ count_between from to xs + count_between from to ys
unfolding count_between
count_between-append from to [] ys = omega arith
count_between-append from to (x ∷ xs) ys = ground (arith, count_between-append from to xs ys)

pub count_between-le-length : (from to : ℕ) (xs : List ℕ) → count_between from to xs ≤ length xs
unfolding count_between
count_between-le-length from to [] = omega arith
count_between-le-length from to (x ∷ xs) = ground (arith, count_between-le-length from to xs)

pub count_between_old :
    (from to : ℕ) (xs : List ℕ) → All (λ e. e < from) xs → count_between from to xs ≡ 0
unfolding count_between
count_between_old from to [] h = refl
count_between_old from to (x ∷ xs) h = ground (arith, count_between_old from to xs h.1)

pub count_between-replicate_out :
    (from to n e : ℕ) → (leb from e && leb e to) ≡ false → count_between from to (replicate n e) ≡ 0
unfolding count_between
count_between-replicate_out from to zero e h = refl
count_between-replicate_out from to (suc n) e h =
    ground (arith, count_between-replicate_out from to n e h)

-- What `evict` drops, and that it is all before the cutoff.
pub dropped : ℕ → List ℕ → List ℕ
dropped cutoff [] = []
dropped cutoff (e ∷ es) = let rest = dropped cutoff es in if ltb e cutoff then e ∷ rest else []

pub dropped-append-drop_before :
    (cutoff : ℕ) (es : List ℕ) → dropped cutoff es ++ drop_before cutoff es ≡ es
unfolding dropped drop_before
dropped-append-drop_before cutoff [] = refl
dropped-append-drop_before cutoff (e ∷ es) = ground (arith, dropped-append-drop_before cutoff es)

pub All-dropped : (cutoff : ℕ) (es : List ℕ) → All (λ e. e < cutoff) (dropped cutoff es)
unfolding dropped
All-dropped cutoff [] = tt
All-dropped cutoff (e ∷ es) = elim (Bool-cases (ltb e cutoff)) [
  | inl b ↦ rw b (ltb→lt e cutoff b, All-dropped cutoff es)
  | inr b ↦ rw b tt
]

-- The times stand in ascending order.
abbrev pub Ascending : List ℕ → Type 0
Ascending [] = Unit
Ascending (e ∷ es) = All (λ f. e ≤ f) es × Ascending es

-- The events at or after the cutoff, wherever they stand.
unfoldable pub since : ℕ → List ℕ → List ℕ
since cutoff [] = []
since cutoff (e ∷ es) = let rest = since cutoff es in if ltb e cutoff then rest else e ∷ rest

since-All : (cutoff : ℕ) (es : List ℕ) → All (λ e. cutoff ≤ e) es → since cutoff es ≡ es
unfolding since
since-All cutoff [] h = refl
since-All cutoff (e ∷ es) h = ground (arith, since-All cutoff es h.1)

All-le_trans : (a b : ℕ) (xs : List ℕ) → a ≤ b → All (λ f. b ≤ f) xs → All (λ f. a ≤ f) xs
All-le_trans a b [] h k = tt
All-le_trans a b (x ∷ xs) h k = (omega arith, All-le_trans a b xs h k.1)

-- On ascending events the early stop of `evict` loses nothing: exactly the events of the window
-- are kept.
pub drop_before-eq-since :
    (cutoff : ℕ) (es : List ℕ) → Ascending es → drop_before cutoff es ≡ since cutoff es
unfolding drop_before since
drop_before-eq-since cutoff [] h = refl
drop_before-eq-since cutoff (e ∷ es) h = elim (Bool-cases (ltb e cutoff)) [
  | inl b ↦ rw b (drop_before-eq-since cutoff es h.1)
  | inr b ↦
      rw b (ap (◌∷◌ e) (sym (since-All cutoff es (All-le_trans cutoff e es (ground arith) h.0))))
]

-- ===== src/Prelude/Lists.antt =====
-- Lists measured and indexed by native numbers, under the library's names.
use Prim.Native.Nat.{ℕ, zero, suc, ◌+◌, ◌-◌, ◌<◌, ◌≤◌, min}
use mathlib.Core.Path.{◌≡◌, refl, sym, ap, ◌∙◌, subst}
use native.Mathlib.Decide.{ℕ_discrete}
use mathlib.Core.Logic.{◌≢◌, ◌⊎◌, inl, inr}
use mathlib.Core.List.{List, [], ◌∷◌, ◌++◌}
use mathlib.Core.Option.{Option, none, some}
use native.Mathlib.Omega.{arith}

module _ {ℓ} {A : Type ℓ} where
  abbrev pub length : List A → ℕ
  length [] = 0
  length (x ∷ xs) = suc (length xs)

  abbrev pub get_elem? : List A → ℕ → Option A
  get_elem? [] i = none
  get_elem? (x ∷ xs) zero = some x
  get_elem? (x ∷ xs) (suc i) = get_elem? xs i

  -- Applies a function at an index; out of bounds nothing changes.
  abbrev pub modify : List A → ℕ → (A → A) → List A
  modify [] i f = []
  modify (x ∷ xs) zero f = f x ∷ xs
  modify (x ∷ xs) (suc i) f = x ∷ modify xs i f

  abbrev pub take : ℕ → List A → List A
  take zero xs = []
  take (suc n) [] = []
  take (suc n) (x ∷ xs) = x ∷ take n xs

  abbrev pub drop : ℕ → List A → List A
  drop zero xs = xs
  drop (suc n) [] = []
  drop (suc n) (x ∷ xs) = drop n xs

  abbrev pub replicate : ℕ → A → List A
  replicate zero a = []
  replicate (suc n) a = a ∷ replicate n a

-- A predicate of every item; it computes to a tuple.
abbrev pub All {ℓ κ} : {A : Type ℓ} → (A → Type κ) → List A → Type κ
All P [] = Unit
All P (x ∷ xs) = P x × All P xs

module _ {ℓ} {A : Type ℓ} where
  pub length-append : (xs ys : List A) → length (xs ++ ys) ≡ length xs + length ys
  length-append [] ys = omega arith
  length-append (x ∷ xs) ys = omega (arith, length-append xs ys)

  pub length-modify : (xs : List A) (i : ℕ) (f : A → A) → length (modify xs i f) ≡ length xs
  length-modify [] i f = refl
  length-modify (x ∷ xs) zero f = refl
  length-modify (x ∷ xs) (suc i) f = ap suc (length-modify xs i f)

  pub get_elem?-modify_ne :
      (xs : List A) (i j : ℕ) (f : A → A) → i ≢ j → get_elem? (modify xs i f) j ≡ get_elem? xs j
  get_elem?-modify_ne [] i j f h = refl
  get_elem?-modify_ne (x ∷ xs) zero zero f h = absurd (h refl)
  get_elem?-modify_ne (x ∷ xs) zero (suc j) f h = refl
  get_elem?-modify_ne (x ∷ xs) (suc i) zero f h = refl
  get_elem?-modify_ne (x ∷ xs) (suc i) (suc j) f h =
      get_elem?-modify_ne xs i j f (λ e. h (ap suc e))

  pub get_elem?-modify_self :
      (xs : List A) (i : ℕ) (f : A → A) {x : A}
      → get_elem? xs i ≡ some x
      → get_elem? (modify xs i f) i ≡ some (f x)
  get_elem?-modify_self [] i f h = cc
  get_elem?-modify_self (x ∷ xs) zero f h = ground arith
  get_elem?-modify_self (x ∷ xs) (suc i) f h = get_elem?-modify_self xs i f h

  pub length-take : (n : ℕ) (xs : List A) → length (take n xs) ≡ min n (length xs)
  length-take zero xs = omega arith
  length-take (suc n) [] = omega arith
  length-take (suc n) (x ∷ xs) = omega (arith, length-take n xs)

  pub length-drop : (n : ℕ) (xs : List A) → length (drop n xs) ≡ length xs - n
  length-drop zero xs = omega arith
  length-drop (suc n) [] = omega arith
  length-drop (suc n) (x ∷ xs) = omega (arith, length-drop n xs)

  pub take-append-drop : (n : ℕ) (xs : List A) → take n xs ++ drop n xs ≡ xs
  take-append-drop zero xs = refl
  take-append-drop (suc n) [] = refl
  take-append-drop (suc n) (x ∷ xs) = ap (◌∷◌ x) (take-append-drop n xs)

  pub length-replicate : (n : ℕ) (a : A) → length (replicate n a) ≡ n
  length-replicate zero a = refl
  length-replicate (suc n) a = ap suc (length-replicate n a)

module _ {ℓ κ} {A : Type ℓ} (P : A → Type κ) where
  pub All-append : (xs ys : List A) → All P xs → All P ys → All P (xs ++ ys)
  All-append [] ys hx hy = hy
  All-append (x ∷ xs) ys hx hy = (hx.0, All-append xs ys hx.1 hy)

  pub All-drop : (n : ℕ) (xs : List A) → All P xs → All P (drop n xs)
  All-drop zero xs h = h
  All-drop (suc n) [] h = h
  All-drop (suc n) (x ∷ xs) h = All-drop n xs h.1

  pub All-replicate : (n : ℕ) (a : A) → P a → All P (replicate n a)
  All-replicate zero a h = tt
  All-replicate (suc n) a h = (h, All-replicate n a h)

  pub All-get : (xs : List A) (i : ℕ) {x : A} → All P xs → get_elem? xs i ≡ some x → P x
  All-get [] i h e = cc
  All-get (x ∷ xs) zero h e = subst (λ (o : Option A). elim o [ none ↦ P x | some y ↦ P y ]) e h.0
  All-get (x ∷ xs) (suc i) h e = All-get xs i h.1 e

  pub All-modify :
      (f : A → A)
      → ((a : A) → P a → P (f a))
      → (xs : List A) (i : ℕ) → All P xs
      → All P (modify xs i f)
  All-modify f keep [] i h = h
  All-modify f keep (x ∷ xs) zero h = (keep x h.0, h.1)
  All-modify f keep (x ∷ xs) (suc i) h = (h.0, All-modify f keep xs i h.1)

module _ {ℓ} {A : Type ℓ} where
  -- The sum of a measure over a list.
  abbrev pub total : (A → ℕ) → List A → ℕ
  total f [] = 0
  total f (x ∷ xs) = f x + total f xs

  pub total-modify :
      (f : A → ℕ) (xs : List A) (i : ℕ) {x : A} (y : A)
      → get_elem? xs i ≡ some x
      → total f (modify xs i (λ _. y)) + f x ≡ total f xs + f y
  total-modify f [] i y h = cc
  total-modify f (x ∷ xs) zero y h = ground arith
  total-modify f (x ∷ xs) (suc i) y h = omega (arith, total-modify f xs i y h)

  pub total-modify_at :
      (f : A → ℕ) (xs : List A) (i : ℕ) (g : A → A) {x : A}
      → get_elem? xs i ≡ some x
      → total f (modify xs i g) + f x ≡ total f xs + f (g x)
  total-modify_at f [] i g h = cc
  total-modify_at f (x ∷ xs) zero g h = ground arith
  total-modify_at f (x ∷ xs) (suc i) g h = omega (arith, total-modify_at f xs i g h)

  pub total-append : (f : A → ℕ) (xs ys : List A) → total f (xs ++ ys) ≡ total f xs + total f ys
  total-append f [] ys = omega arith
  total-append f (x ∷ xs) ys = omega (arith, total-append f xs ys)

  -- A total is zero, or some item counts.
  pub total-cases :
      (f : A → ℕ) (xs : List A)
      → (total f xs ≡ 0) ⊎ ((i : ℕ) × (x : A) × (get_elem? xs i ≡ some x) × (0 < f x))
  total-cases f [] = inl refl
  total-cases f (x ∷ xs) = elim (total-cases f xs) [
    | inr (i, y, e, h) ↦ inr (suc i, y, e, h)
    | inl z ↦ elim (zero_or (f x)) [
      | inl w ↦ inl (omega (arith, z, w))
      | inr h ↦ inr (0, x, refl, h)
    ]
  ]
    where
      zero_or : (n : ℕ) → (n ≡ 0) ⊎ (0 < n)
      zero_or zero = inl refl
      zero_or (suc n) = inr (omega arith)

  pub le-total :
      (f : A → ℕ) (xs : List A) (i : ℕ) {x : A} → get_elem? xs i ≡ some x → f x ≤ total f xs
  le-total f [] i h = cc
  le-total f (x ∷ xs) zero h = ground arith
  le-total f (x ∷ xs) (suc i) h = omega (arith, le-total f xs i h)

  pub total_none : (f : A → ℕ) (xs : List A) → All (λ x. f x ≡ 0) xs → total f xs ≡ 0
  total_none f [] h = refl
  total_none f (x ∷ xs) h = omega (arith, h.0, total_none f xs h.1)

  pub get_elem?-append_left :
      (xs ys : List A) (i : ℕ) → i < length xs → get_elem? (xs ++ ys) i ≡ get_elem? xs i
  get_elem?-append_left [] ys i h = elim h [ ]
  get_elem?-append_left (x ∷ xs) ys zero h = refl
  get_elem?-append_left (x ∷ xs) ys (suc i) h = get_elem?-append_left xs ys i (omega arith)

  pub get_elem?-append_at : (xs : List A) (y : A) → get_elem? (xs ++ y ∷ []) (length xs) ≡ some y
  get_elem?-append_at [] y = refl
  get_elem?-append_at (x ∷ xs) y = get_elem?-append_at xs y

  pub get_elem?-lt : (xs : List A) (i : ℕ) {x : A} → get_elem? xs i ≡ some x → i < length xs
  get_elem?-lt [] i h = cc
  get_elem?-lt (x ∷ xs) zero h = omega arith
  get_elem?-lt (x ∷ xs) (suc i) h = omega (arith, get_elem?-lt xs i h)

module _ {ℓ κ} {A : Type ℓ} (P : A → Type κ) where
  pub All-set : (xs : List A) (i : ℕ) (y : A) → P y → All P xs → All P (modify xs i (λ _. y))
  All-set [] i y p h = h
  All-set (x ∷ xs) zero y p h = (p, h.1)
  All-set (x ∷ xs) (suc i) y p h = (h.0, All-set xs i y p h.1)

module _ {ℓ} {A : Type ℓ} where
  -- What stands at a modified index comes from what stood there.
  pub get_elem?-modify_inv :
      (xs : List A) (i : ℕ) (f : A → A) {y : A}
      → get_elem? (modify xs i f) i ≡ some y
      → (x : A) × (get_elem? xs i ≡ some x) × (y ≡ f x)
  get_elem?-modify_inv [] i f h = cc
  get_elem?-modify_inv (x ∷ xs) zero f h = (x, refl, ground arith)
  get_elem?-modify_inv (x ∷ xs) (suc i) f h = get_elem?-modify_inv xs i f h

module _ {ℓ} {A : Type ℓ} where
  -- What stands in a modified list stands there, or comes from what stood at the index.
  pub get_elem?-modify_cases :
      (xs : List A) (i j : ℕ) (f : A → A) {y : A}
      → get_elem? (modify xs i f) j ≡ some y
      → ((i ≢ j) × (get_elem? xs j ≡ some y))
        ⊎ ((i ≡ j) × ((x : A) × (get_elem? xs i ≡ some x) × (y ≡ f x)))
  get_elem?-modify_cases xs i j f {y} h = elim (ℕ_discrete i j) [
    | no n ↦ inl (n, sym (get_elem?-modify_ne xs i j f n) ∙ h)
    | yes e ↦ inr (e, get_elem?-modify_inv xs i f (ap (λ k. get_elem? (modify xs i f) k) e ∙ h))
  ]

  pub get_elem?-append_cases :
      (xs : List A) (x : A) (i : ℕ) {y : A}
      → get_elem? (xs ++ x ∷ []) i ≡ some y
      → (get_elem? xs i ≡ some y) ⊎ ((i ≡ length xs) × (y ≡ x))
  get_elem?-append_cases [] x zero h = inr (refl, cc)
  get_elem?-append_cases [] x (suc i) h = cc
  get_elem?-append_cases (z ∷ xs) x zero h = inl h
  get_elem?-append_cases (z ∷ xs) x (suc i) h = elim (get_elem?-append_cases xs x i h) [
    | inl e ↦ inl e
    | inr (e, w) ↦ inr (ap suc e, w)
  ]

pub All-weaken {ℓ κ μ} :
    {A : Type ℓ} (P : A → Type κ) (Q : A → Type μ) (xs : List A)
    → ((a : A) → P a → Q a)
    → All P xs
    → All Q xs
All-weaken P Q [] f h = tt
All-weaken P Q (x ∷ xs) f h = (f x h.0, All-weaken P Q xs f h.1)

-- An index within the length has an item.
pub get_some :
    {A : Type 0} (xs : List A) (i : ℕ) → i < length xs → (x : A) × (get_elem? xs i ≡ some x)
get_some [] i h = elim h [ ]
get_some (x ∷ xs) zero h = (x, refl)
get_some (x ∷ xs) (suc i) h = get_some xs i (omega arith)

-- ===== src/Router/Lane/Measures.antt =====
-- internal/router/lane.go: how goroutines count in a lane.
use sclaw.Prelude.{
  ℕ, ◌+◌, ◌<◌, ◌≡◌, ◌≢◌, sym, ap, ◌∙◌, subst, Bool, true, false, some, List, [], ◌∷◌, ◌==◌,
  if◌then◌else◌, get_elem?, modify, get_elem?-modify_ne, total, total-modify, get_elem?-modify_inv,
  All, arith,
}
use native.Mathlib.Decide.{ℕ_discrete}
use sclaw.Router.Lane.{Lane, Pc, idle, waiting, inside, trying, backing, leaving}

-- A goroutine is counted in the lane's refs; it holds the lane's mutex.
abbrev pub refs_of : {K : Type 0} → ℕ → Pc K → ℕ
refs_of l idle = 0
refs_of l (waiting k m) = if m == l then 1 else 0
refs_of l (inside k m) = if m == l then 1 else 0
refs_of l (trying k m) = if m == l then 1 else 0
refs_of l (backing k m) = if m == l then 1 else 0
refs_of l (leaving m) = 0

abbrev pub holds_of : {K : Type 0} → ℕ → Pc K → ℕ
holds_of l (inside k m) = if m == l then 1 else 0
holds_of l (leaving m) = if m == l then 1 else 0
holds_of l _ = 0

abbrev pub Within : {K : Type 0} → ℕ → Pc K → Type 0
Within n idle = Unit
Within n (waiting k m) = m < n
Within n (inside k m) = m < n
Within n (trying k m) = m < n
Within n (backing k m) = m < n
Within n (leaving m) = m < n

abbrev pub bit : Bool → ℕ
bit true = 1
bit false = 0

-- A number in each lane that is the sum of a measure of the goroutines stays so under a move.
pub move-exact :
    {K : Type 0} (g : Lane → ℕ) (r : ℕ → Pc K → ℕ) (heap : List Lane) (ts : List (Pc K)) (i l : ℕ)
    (p q : Pc K) (f : Lane → Lane)
    → get_elem? ts i ≡ some p
    → ((m : ℕ) → l ≢ m → r m p ≡ r m q)
    → ((x : Lane) → get_elem? heap l ≡ some x → g (f x) + r l p ≡ g x + r l q)
    → ((m : ℕ) (x : Lane) → get_elem? heap m ≡ some x → g x ≡ total (r m) ts)
    → (m : ℕ) (x : Lane) → get_elem? (modify heap l f) m ≡ some x
    → g x ≡ total (r m) (modify ts i (λ _. q))
move-exact g r heap ts i l p q f at elsewhere here exact m x e = elim (ℕ_discrete l m) [
  | yes same ↦
      subst (λ k. g x ≡ total (r k) (modify ts i (λ _. q))) same
        (let (y, at_l, is) =
            get_elem?-modify_inv heap l f
              (subst (λ k. get_elem? (modify heap l f) k ≡ some x) (sym same) e) in
          omega (arith, ap g is, here y at_l, exact l y at_l, total-modify (r l) ts i q at))
  | no other ↦ omega (
    arith,
    elsewhere m other,
    exact m x (sym (get_elem?-modify_ne heap l m f other) ∙ e),
    total-modify (r m) ts i q at,
  )
]

pub All-zero : {A : Type 0} (f : A → ℕ) (xs : List A) → total f xs ≡ 0 → All (λ x. f x ≡ 0) xs
All-zero f [] h = tt
All-zero f (x ∷ xs) h = (omega arith, All-zero f xs (omega arith))

pub All-with :
    {A : Type 0} (P Q R : A → Type 0) (xs : List A)
    → ((x : A) → P x → Q x → R x)
    → All P xs
    → All Q xs
    → All R xs
All-with P Q R [] f p q = tt
All-with P Q R (x ∷ xs) f p q = (f x p.0 q.0, All-with P Q R xs f p.1 q.1)

-- A change of the lanes that leaves the number alone.
pub same-exact :
    (g : Lane → ℕ) (n : ℕ → ℕ) (heap : List Lane) (l : ℕ) (f : Lane → Lane)
    → ((x : Lane) → g (f x) ≡ g x)
    → ((m : ℕ) (x : Lane) → get_elem? heap m ≡ some x → g x ≡ n m)
    → (m : ℕ) (x : Lane) → get_elem? (modify heap l f) m ≡ some x
    → g x ≡ n m
same-exact g n heap l f same exact m x e = elim (ℕ_discrete l m) [
  | yes p ↦
      (let (y, at_l, is) =
          get_elem?-modify_inv heap l f
            (subst (λ k. get_elem? (modify heap l f) k ≡ some x) (sym p) e) in
        ap g is ∙ same y ∙ exact l y at_l ∙ ap n p)
  | no other ↦ exact m x (sym (get_elem?-modify_ne heap l m f other) ∙ e)
]

-- ===== src/Provider/Chain/Auth.antt =====
-- AuthProfile of internal/provider/chain.go: API keys, and the one in use.
use native.Mathlib.Nat.{add-zero, mod-lt, mod-eq_of_lt, mod-add-mod}
use sclaw.Prelude.{
  ℕ, zero, suc, ◌+◌, ◌%◌, ◌≤◌, ◌<◌, String, ◌≡◌, refl, Bool, true, false, Option, none, some, List,
  [], ◌∷◌, sym, ap, ◌∙◌, arith, leb, if◌then◌else◌, length, get_elem?,
}

pub record AuthProfile : Type 0 where
  pub keys : List String
  pub idx : ℕ

-- NewAuthProfile; `none` is ErrNoKeys.
unfoldable pub new_auth_profile : List String → Option AuthProfile
new_auth_profile [] = none
new_auth_profile (k ∷ ks) = some (record { keys = k ∷ ks; idx = 0 })

-- CurrentKey; `none` would be a panic for an index out of range.
unfoldable pub current_key : AuthProfile → Option String
current_key a = get_elem? a.keys a.idx

-- Rotate
unfoldable pub rotate : AuthProfile → AuthProfile × Bool
rotate a =
    if leb (length a.keys) 1
    then (a, false)
    else (record a { idx = (a.idx + 1) % length a.keys }, true)

pub record IsValid (a : AuthProfile) : Type 0 where
  pub in_range : a.idx < length a.keys

unfoldable pub rotations : ℕ → AuthProfile → AuthProfile
rotations zero a = a
rotations (suc n) a = (rotate (rotations n a)).0

keys-rotations : (n : ℕ) (a : AuthProfile) → (rotations n a).keys ≡ a.keys
unfolding rotations rotate
keys-rotations zero a = refl
keys-rotations (suc n) a = ground (arith, keys-rotations n a)

single : (i l : ℕ) → i < l → l ≤ 1 → (i + 1) % l ≡ i
single zero (suc zero) h k = refl
single i l h k = absurd (omega arith)

idx-rotate : (a : AuthProfile) → IsValid a → (rotate a).0.idx ≡ (a.idx + 1) % length a.keys
unfolding rotate
idx-rotate a v = ground (arith, single a.idx (length a.keys) v.in_range)

rotate-IsValid : (a : AuthProfile) → IsValid a → IsValid (rotate a).0
unfolding rotate
rotate-IsValid a v = ground (arith, mod-lt (a.idx + 1) {m = length a.keys})

rotations-IsValid : (n : ℕ) (a : AuthProfile) → IsValid a → IsValid (rotations n a)
unfolding rotations
rotations-IsValid zero a v = v
rotations-IsValid (suc n) a v = rotate-IsValid (rotations n a) (rotations-IsValid n a v)

next_rotation :
    (n : ℕ) (a : AuthProfile)
    → IsValid a
    → (rotations (suc n) a).idx ≡ ((rotations n a).idx + 1) % length (rotations n a).keys
unfolding rotations
next_rotation n a v = idx-rotate (rotations n a) (rotations-IsValid n a v)

idx-rotations :
    (n : ℕ) (a : AuthProfile) → IsValid a → (rotations n a).idx ≡ (a.idx + n) % length a.keys
idx-rotations zero a v = unfold rotations in sym (rw add-zero (mod-eq_of_lt v.in_range))
idx-rotations (suc n) a v =
    next_rotation n a v
    ∙ ap (λ k. ((rotations n a).idx + 1) % length k) (keys-rotations n a)
    ∙ ap (λ k. (k + 1) % length a.keys) (idx-rotations n a v)
    ∙ mod-add-mod (a.idx + n) (length a.keys) 1
    ∙ ap (λ k. k % length a.keys) (omega arith)

get_elem?-some :
    (xs : List String) (i : ℕ) → i < length xs → (x : String) × (get_elem? xs i ≡ some x)
get_elem?-some [] i h = elim h [ ]
get_elem?-some (x ∷ xs) zero h = (x, refl)
get_elem?-some (x ∷ xs) (suc i) h = get_elem?-some xs i (omega arith)

-- Any number of rotations keeps the keys and leaves a key to use, the one that many places further
-- on, cyclically.
pub rotations_cycle :
    (n : ℕ) (a : AuthProfile)
    → IsValid a
    → ((rotations n a).keys ≡ a.keys)
      × ((rotations n a).idx ≡ (a.idx + n) % length a.keys)
      × ((k : String) × (current_key (rotations n a) ≡ some k))
rotations_cycle n a v =
    let w = rotations-IsValid n a v in
    (
      keys-rotations n a,
      idx-rotations n a v,
      (unfold current_key in get_elem?-some (rotations n a).keys (rotations n a).idx w.in_range),
    )

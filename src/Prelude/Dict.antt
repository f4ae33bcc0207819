-- ===== src/Prelude/Dict.antt =====
-- Go's maps as association lists with distinct keys. Keys are compared by a decision, which a
-- section takes. The order of the entries stands for the iteration order, which Go leaves open.
use Prim.Native.Nat.{suc, ◌≤◌}
use mathlib.Core.Path.{◌≡◌, refl, sym, ◌∙◌, subst}
use mathlib.Core.Logic.{◌≢◌, ite}
use mathlib.Core.List.{List, [], ◌∷◌}
use mathlib.Core.Option.{Option, none, some}
use native.Mathlib.Omega.{arith}
use sclaw.Prelude.Lists.{length}

pub record Entry {ℓ} (K V : Type ℓ) : Type ℓ where
  pub key : K
  pub value : V

abbrev pub Dict {ℓ} : Type ℓ → Type ℓ → Type ℓ
Dict K V = List (Entry K V)

module _ {ℓ} {K V : Type ℓ} (dec : Discrete K) where
  -- m[k], with its "ok"
  unfoldable pub lookup : K → Dict K V → Option V
  lookup k [] = none
  lookup k (e ∷ m) = ite (dec k e.key) (some e.value) (lookup k m)

  -- m[k] = v
  unfoldable pub insert : K → V → Dict K V → Dict K V
  insert k v [] = record { key = k; value = v } ∷ []
  insert k v (e ∷ m) = ite (dec k e.key) (record { key = k; value = v } ∷ m) (e ∷ insert k v m)

  -- delete(m, k)
  unfoldable pub delete : K → Dict K V → Dict K V
  delete k [] = []
  delete k (e ∷ m) = let rest = delete k m in ite (dec k e.key) rest (e ∷ rest)

  pub lookup-insert_self : (k : K) (v : V) (m : Dict K V) → lookup k (insert k v m) ≡ some v
  unfolding lookup insert
  lookup-insert_self k v [] = ground arith
  lookup-insert_self k v (e ∷ m) = ground (arith, lookup-insert_self k v m)

  pub lookup-insert_ne :
      (k j : K) (v : V) (m : Dict K V) → j ≢ k → lookup j (insert k v m) ≡ lookup j m
  unfolding lookup insert
  lookup-insert_ne k j v [] h = ground arith
  lookup-insert_ne k j v (e ∷ m) h = ground (arith, lookup-insert_ne k j v m)

  pub lookup-delete_self : (k : K) (m : Dict K V) → lookup k (delete k m) ≡ none
  unfolding lookup delete
  lookup-delete_self k [] = refl
  lookup-delete_self k (e ∷ m) = ground (arith, lookup-delete_self k m)

  pub lookup-delete_ne : (k j : K) (m : Dict K V) → j ≢ k → lookup j (delete k m) ≡ lookup j m
  unfolding lookup delete
  lookup-delete_ne k j [] h = refl
  lookup-delete_ne k j (e ∷ m) h = ground (arith, lookup-delete_ne k j m)

  pub length-insert_new :
      (k : K) (v : V) (m : Dict K V) → lookup k m ≡ none → length (insert k v m) ≡ suc (length m)
  unfolding lookup insert
  length-insert_new k v [] h = refl
  length-insert_new k v (e ∷ m) h = ground (arith, length-insert_new k v m)

  pub length-insert_old :
      (k : K) (v w : V) (m : Dict K V) → lookup k m ≡ some w → length (insert k v m) ≡ length m
  unfolding lookup insert
  length-insert_old k v w [] h = cc
  length-insert_old k v w (e ∷ m) h = ground (arith, length-insert_old k v w m)

  pub length-delete-le : (k : K) (m : Dict K V) → length (delete k m) ≤ length m
  unfolding delete
  length-delete-le k [] = omega arith
  length-delete-le k (e ∷ m) = ground (arith, length-delete-le k m)

  -- The keys are distinct: every Go map satisfies this.
  abbrev pub IsMap : Dict K V → Type ℓ
  IsMap [] = Unit
  IsMap (e ∷ m) = (lookup e.key m ≡ none) × IsMap m

  pub insert-IsMap : (k : K) (v : V) (m : Dict K V) → IsMap m → IsMap (insert k v m)
  unfolding insert lookup
  insert-IsMap k v [] h = (refl, tt)
  insert-IsMap k v (e ∷ m) h =
      elim (dec k e.key)
        as (λ d. IsMap (ite d (record { key = k; value = v } ∷ m) (e ∷ insert k v m))) [
          | yes q ↦ (subst (λ j. lookup j m ≡ none) (sym q) h.0, h.1)
          | no n ↦ (lookup-insert_ne k e.key v m (λ q. n (sym q)) ∙ h.0, insert-IsMap k v m h.1)
        ]

  pub delete-IsMap : (k : K) (m : Dict K V) → IsMap m → IsMap (delete k m)
  unfolding delete
  delete-IsMap k [] h = tt
  delete-IsMap k (e ∷ m) h =
      elim (dec k e.key) as (λ d. IsMap (ite d (delete k m) (e ∷ delete k m))) [
        | yes q ↦ delete-IsMap k m h.1
        | no n ↦ (lookup-delete_ne k e.key m (λ q. n (sym q)) ∙ h.0, delete-IsMap k m h.1)
      ]

-- ===== src/Hook/Priorities.antt =====
-- internal/hook/pipeline.go: priorities far from the ends of int, whose differences do not wrap.
use sclaw.Prelude.{
  ◌<◌, ◌≡◌, refl, Bool, true, false, ◌||◌, ltb, if◌then◌else◌, arith, ℤ, pos, negsuc,
}
use sclaw.Hook.{eqz, difference_is_negative}

abbrev pub ltz : ℤ → ℤ → Bool
ltz (pos m) (pos n) = ltb m n
ltz (pos m) (negsuc n) = false
ltz (negsuc m) (pos n) = true
ltz (negsuc m) (negsuc n) = ltb n m

-- From -2^62 to 2^62 - 1.
abbrev pub IsSmall : ℤ → Type 0
IsSmall (pos n) = n < 4611686018427387904
IsSmall (negsuc n) = n < 4611686018427387904

pub ltz_trans : (a b c : ℤ) → ltz b a ≡ false → ltz c b ≡ false → ltz c a ≡ false
ltz_trans (pos l) (pos m) (pos n) h k = ground (arith, h, k)
ltz_trans (pos l) (pos m) (negsuc n) h k = cc
ltz_trans (pos l) (negsuc m) (pos n) h k = cc
ltz_trans (pos l) (negsuc m) (negsuc n) h k = cc
ltz_trans (negsuc l) (pos m) (pos n) h k = refl
ltz_trans (negsuc l) (pos m) (negsuc n) h k = cc
ltz_trans (negsuc l) (negsuc m) (pos n) h k = refl
ltz_trans (negsuc l) (negsuc m) (negsuc n) h k = ground (arith, h, k)

pub ltz_asym : (a b : ℤ) → ltz a b ≡ true → ltz b a ≡ false
ltz_asym (pos m) (pos n) h = ground (arith, h)
ltz_asym (pos m) (negsuc n) h = cc
ltz_asym (negsuc m) (pos n) h = refl
ltz_asym (negsuc m) (negsuc n) h = ground (arith, h)

-- The comparison by the difference is that of the numbers.
pub compared :
    (a b : ℤ) (tie : Bool)
    → IsSmall a
    → IsSmall b
    → (if eqz a b then tie else difference_is_negative a b)
      ≡ (ltz a b || (if ltz b a then false else tie))
compared (pos m) (pos n) tie p q = ground arith
compared (pos m) (negsuc n) tie p q = ground arith
compared (negsuc m) (pos n) tie p q = ground arith
compared (negsuc m) (negsuc n) tie p q = ground arith

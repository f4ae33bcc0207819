-- ===== src/Security/RateLimit/Sessions.antt =====
-- Sessions and kinds (internal/security/ratelimit.go).
use text.Mathlib.Text.{starts_with}
use Prim.Native.String.{◌++◌}
use sclaw.Prelude.{
  ℕ, String, true, false, ◌≡◌, ◌≢◌, refl, none, some, [], ◌∷◌, if◌then◌else◌, String-discrete, ap,
  sym, ◌∙◌, ◌⊎◌, inl, inr, Option-cases, arith, ℤ, pos, suc,
}
use sclaw.Prelude.Dict.{Dict, lookup, lookup-insert_ne}
use sclaw.Security.RateLimit.{
  RateLimiter, Bucket, BucketTemplate, bucket_or_new, bucket_key, get_or_create_bucket, allow,
  allow_n, remove_prefix, remove_session, allow_bucket, put_bucket, allow_n_bucket,
}
use sclaw.Security.RateLimit.Keys.{
  has_colon, bucket_key-eq, bucket_key-own, bucket_key-longer, bucket_key-other,
}

no_template :
    (rl : RateLimiter) (t l : String)
    → lookup String-discrete l rl.templates ≡ none
    → get_or_create_bucket rl t l ≡ none
unfolding get_or_create_bucket
no_template rl t l e = rw (e, get_or_create_bucket) refl

of_template :
    (rl : RateLimiter) (t l : String) (b : BucketTemplate)
    → lookup String-discrete l rl.templates ≡ some b
    → get_or_create_bucket rl t l
      ≡ some (bucket_or_new (lookup String-discrete (bucket_key t l) rl.buckets) b)
unfolding get_or_create_bucket
of_template rl t l b e = rw (e, get_or_create_bucket) refl

put_bucket_other :
    (rl : RateLimiter) (s k t l : String) (b : Bucket)
    → bucket_key t l ≢ bucket_key s k
    → get_or_create_bucket (put_bucket rl s k b) t l ≡ get_or_create_bucket rl t l
unfolding put_bucket
put_bucket_other rl s k t l b h = elim (Option-cases (lookup String-discrete l rl.templates)) [
  | inl e ↦ no_template (put_bucket rl s k b) t l e ∙ sym (no_template rl t l e)
  | inr (c, e) ↦
      of_template (put_bucket rl s k b) t l c e
      ∙ ap (λ o. some (bucket_or_new o c))
          (lookup-insert_ne String-discrete (bucket_key s k) (bucket_key t l) b rl.buckets h)
      ∙ sym (of_template rl t l c e)
]

module _ (now : ℕ) (rl : RateLimiter) (s k t l : String)
    (other : bucket_key t l ≢ bucket_key s k) where
  allow_other : get_or_create_bucket (allow now rl s k).0 t l ≡ get_or_create_bucket rl t l
  unfolding allow
  allow_other = elim (Option-cases (get_or_create_bucket rl s k)) [
    | inl e ↦ rw (e, allow) refl
    | inr (b, e) ↦ rw (e, allow) (put_bucket_other rl s k t l (allow_bucket now b).0 other)
  ]

  allow_n_other :
      (n : ℤ) → get_or_create_bucket (allow_n now rl s k n).0 t l ≡ get_or_create_bucket rl t l
  unfolding allow_n
  allow_n_other (pos (suc n)) = elim (Option-cases (get_or_create_bucket rl s k)) [
    | inl e ↦ rw (e, allow_n) refl
    | inr (b, e) ↦
        rw (e, allow_n) (put_bucket_other rl s k t l (allow_n_bucket now (suc n) b).0 other)
  ]
  allow_n_other _ = refl

-- The answer of Allow is that of the bucket.
answer :
    (now : ℕ) (x y : RateLimiter) (t l : String)
    → get_or_create_bucket x t l ≡ get_or_create_bucket y t l
    → (allow now x t l).1 ≡ (allow now y t l).1
unfolding allow
answer now x y t l e = elim (Option-cases (get_or_create_bucket y t l)) [
  | inl f ↦ rw (e ∙ f, allow) (rw (f, allow) refl)
  | inr (b, f) ↦ rw (e ∙ f, allow) (rw (f, allow) refl)
]

-- Sessions and kinds do not share a limit: an Allow or AllowN for one session and kind leaves the
-- bucket of every other session, and of every other kind, as it was, and so every later answer
-- there. A kind has no colon, as the kinds of the program; ids of sessions may have some.
pub allow_isolated :
    (now later : ℕ) (rl : RateLimiter) (s k t l : String) (n : ℤ)
    → has_colon k ≡ false
    → has_colon l ≡ false
    → (t ≢ s) ⊎ (l ≢ k)
    → (get_or_create_bucket (allow now rl s k).0 t l ≡ get_or_create_bucket rl t l)
      × (get_or_create_bucket (allow_n now rl s k n).0 t l ≡ get_or_create_bucket rl t l)
      × ((allow later (allow now rl s k).0 t l).1 ≡ (allow later rl t l).1)
      × ((allow later (allow_n now rl s k n).0 t l).1 ≡ (allow later rl t l).1)
allow_isolated now later rl s k t l n p q d =
    let other = apart d in
    (
      allow_other now rl s k t l other,
      allow_n_other now rl s k t l other n,
      answer later (allow now rl s k).0 rl t l (allow_other now rl s k t l other),
      answer later (allow_n now rl s k n).0 rl t l (allow_n_other now rl s k t l other n),
    )
  where
    apart : (t ≢ s) ⊎ (l ≢ k) → bucket_key t l ≢ bucket_key s k
    apart (inl d) e = d (bucket_key-eq t s l k q p e).0
    apart (inr d) e = d (bucket_key-eq t s l k q p e).1

lookup-remove_prefix :
    (prefix key : String) (m : Dict String Bucket)
    → lookup String-discrete key (remove_prefix prefix m)
      ≡ (if starts_with key prefix then none else lookup String-discrete key m)
unfolding remove_prefix lookup
lookup-remove_prefix prefix key [] = ground arith
lookup-remove_prefix prefix key (e ∷ m) = elim (String-discrete key e.key) [
  | yes p ↦ ground (arith, lookup-remove_prefix prefix key m, ap (λ k. starts_with k prefix) p)
  | no p ↦ ground (arith, lookup-remove_prefix prefix key m)
]

lookup-removed :
    (prefix key : String) (m : Dict String Bucket)
    → starts_with key prefix ≡ true
    → lookup String-discrete key (remove_prefix prefix m) ≡ none
lookup-removed prefix key m h = lookup-remove_prefix prefix key m ∙ rw h refl

lookup-left :
    (prefix key : String) (m : Dict String Bucket)
    → starts_with key prefix ≡ false
    → lookup String-discrete key (remove_prefix prefix m) ≡ lookup String-discrete key m
lookup-left prefix key m h = lookup-remove_prefix prefix key m ∙ rw h refl

-- After RemoveSession, no bucket of the session is left, of any kind, and none of a session whose
-- id continues its id behind a colon; every other session keeps its buckets, of each kind that has
-- no colon, as they were.
pub lookup-remove_session :
    (rl : RateLimiter) (s rest kind t k : String)
    → has_colon k ≡ false
    → t ≢ s
    → ((after : String) → t ≢ s ++ ":" ++ after)
    → (lookup String-discrete (bucket_key s kind) (remove_session rl s).buckets ≡ none)
      × (lookup String-discrete (bucket_key (s ++ ":" ++ rest) kind) (remove_session rl s).buckets
          ≡ none)
      × (lookup String-discrete (bucket_key t k) (remove_session rl s).buckets
          ≡ lookup String-discrete (bucket_key t k) rl.buckets)
unfolding remove_session
lookup-remove_session rl s rest kind t k p n m = (
  lookup-removed (s ++ ":") (bucket_key s kind) rl.buckets (bucket_key-own s kind),
  lookup-removed (s ++ ":") (bucket_key (s ++ ":" ++ rest) kind) rl.buckets
      (bucket_key-longer s rest kind),
  lookup-left (s ++ ":") (bucket_key t k) rl.buckets (bucket_key-other s t k p n m),
)

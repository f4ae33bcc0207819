-- ===== src/Examples/Limits.antt =====
-- Runs of internal/security/ratelimit.go.
use text.Mathlib.Text.{starts_with}
use text.Mathlib.TextPositions.{starts_with-append}
use Prim.Native.String.{◌++◌}
use sclaw.Prelude.{
  ◌+◌, ◌-◌, ◌≤◌, ◌≡◌, ◌≢◌, refl, ap, inl, none, List, [], ◌∷◌, arith, pos, String, false, length,
  leb, String-discrete,
}
use sclaw.Prelude.Dict.{lookup}
use sclaw.Security.RateLimit.{
  Bucket, RateLimiter, bucket_key, allow_bucket, allow_n_bucket, evict, drop_before, allow, allow_n,
  remove_session, get_or_create_bucket,
}
use sclaw.Security.RateLimit.Keys.{has_colon}
use sclaw.Security.RateLimit.Window.{Call, serve_calls, window_bound, admission_exact}
use sclaw.Security.RateLimit.Eviction.{count_between, since}
use sclaw.Security.RateLimit.Sessions.{allow_isolated, lookup-remove_session}

abbrev bucket : Bucket
bucket = record { window = 10; limit = 2; events = [] }

abbrev calls : List Call
calls =
    record { at = 1; tokens = 1 }
    ∷ record { at = 3; tokens = 1 }
    ∷ record { at = 4; tokens = 1 }
    ∷ record { at = 12; tokens = 1 }
    ∷ []

serve_calls_run : (serve_calls calls bucket []).1 ≡ 1 ∷ 3 ∷ 12 ∷ []
unfolding serve_calls allow_n_bucket evict drop_before
serve_calls_run = refl

window_bound_example : count_between 3 (3 + 10) (serve_calls calls bucket []).1 ≤ 2
window_bound_example =
    window_bound calls 0 bucket refl (omega arith, (omega arith, (omega arith, (omega arith, tt))))
      3

abbrev full : Bucket
full = record { window = 10; limit = 2; events = 1 ∷ 3 ∷ [] }

admission_exact_example :
    ((allow_n_bucket 12 1 full).1 ≡ leb (length (since (12 - 10) (1 ∷ 3 ∷ [])) + 1) 2)
    × (allow_bucket 12 full ≡ allow_n_bucket 12 1 full)
admission_exact_example = admission_exact 12 1 full ((omega arith, tt), (tt, tt))

abbrev limiter : RateLimiter
limiter = record {
  buckets =
      record { key = "s:message"; value = full }
      ∷ record { key = "s:x:message"; value = full }
      ∷ record { key = "x:message"; value = full }
      ∷ [];
  templates = record { key = "message"; value = record { window = 10; limit = 2 } } ∷ [];
  max_sessions = 3;
}

longer_session : ◌≢◌ {A = String} "s:x" "s"
longer_session e = cc

other_session : ◌≢◌ {A = String} "x" "s"
other_session e = cc (ap (λ t. starts_with t "s") e)

not_longer : (after : String) → ◌≢◌ {A = String} "x" ("s" ++ ":" ++ after)
not_longer after e = cc (ap (λ t. starts_with t "s") e, starts_with-append "s" (":" ++ after))

no_colon : has_colon "message" ≡ false
unfolding has_colon String-discrete
no_colon = refl

allow_isolated_example :
    (get_or_create_bucket (allow 5 limiter "s" "message").0 "s:x" "message"
      ≡ get_or_create_bucket limiter "s:x" "message")
    × (get_or_create_bucket (allow_n 5 limiter "s" "message" (pos 2)).0 "s:x" "message"
        ≡ get_or_create_bucket limiter "s:x" "message")
    × ((allow 6 (allow 5 limiter "s" "message").0 "s:x" "message").1
        ≡ (allow 6 limiter "s:x" "message").1)
    × ((allow 6 (allow_n 5 limiter "s" "message" (pos 2)).0 "s:x" "message").1
        ≡ (allow 6 limiter "s:x" "message").1)
allow_isolated_example =
    allow_isolated 5 6 limiter "s" "message" "s:x" "message" (pos 2) no_colon no_colon
      (inl longer_session)

-- RemoveSession of "s" takes the bucket of the session "s:x" along, and leaves that of "x".
lookup-remove_session_example :
    (lookup String-discrete (bucket_key "s" "message") (remove_session limiter "s").buckets ≡ none)
    × (lookup String-discrete
          (bucket_key ("s" ++ ":" ++ "x") "message")
          (remove_session limiter "s").buckets
        ≡ none)
    × (lookup String-discrete (bucket_key "x" "message") (remove_session limiter "s").buckets
        ≡ lookup String-discrete (bucket_key "x" "message") limiter.buckets)
lookup-remove_session_example =
    lookup-remove_session limiter "s" "x" "message" "x" "message" no_colon other_session not_longer

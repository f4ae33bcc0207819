-- ===== src/Security/RateLimit.antt =====
-- internal/security/ratelimit.go: sliding-window rate limits, one bucket for each session and
-- kind. Times are nanoseconds in ℕ; a method takes the clock reading that the source takes.
pub mod Eviction
pub mod Window
pub mod Keys
pub mod Sessions
use text.Mathlib.Text.{starts_with}
use Prim.Native.String.{◌++◌}
use sclaw.Prelude.{
  ℕ, zero, suc, ◌+◌, ◌-◌, ◌*◌, String, Bool, true, false, Option, none, some, List, [], ◌∷◌,
  ◌++◌ as append, ltb, leb, if◌then◌else◌, length, replicate, ℤ, pos, negsuc, positive_or,
  String-discrete,
}
use sclaw.Prelude.Dict.{Dict, Entry, lookup, insert}

pub record RateLimitConfig : Type 0 where
  pub max_sessions : ℤ
  pub messages_per_min : ℤ
  pub tool_calls_per_min : ℤ
  pub tokens_per_hour : ℤ

pub record BucketTemplate : Type 0 where
  pub window : ℕ
  pub limit : ℕ

pub record Bucket : Type 0 where
  pub window : ℕ
  pub limit : ℕ
  pub events : List ℕ

pub record RateLimiter : Type 0 where
  pub buckets : Dict String Bucket
  pub templates : Dict String BucketTemplate
  pub max_sessions : ℕ

abbrev minute : ℕ
minute = 60 * 1_000_000_000

abbrev hour : ℕ
hour = 3600 * 1_000_000_000

token_template : ℤ → Dict String BucketTemplate → Dict String BucketTemplate
token_template (pos (suc n)) m =
    insert String-discrete "token" (record { window = hour; limit = suc n }) m
token_template _ m = m

-- NewRateLimiter
unfoldable pub new_rate_limiter : RateLimitConfig → RateLimiter
unfolding token_template
new_rate_limiter cfg = record {
  buckets = [];
  templates = token_template cfg.tokens_per_hour (
      record {
        key = "message";
        value = record { window = minute; limit = positive_or cfg.messages_per_min 200 };
      }
      ∷ record {
        key = "tool_call";
        value = record { window = minute; limit = positive_or cfg.tool_calls_per_min 500 };
      }
      ∷ []);
  max_sessions = positive_or cfg.max_sessions 100;
}

-- bucketKey
unfoldable pub bucket_key : String → String → String
bucket_key session_id kind = session_id ++ ":" ++ kind

-- The loop of `evict`: events before the cutoff, up to the first that is not, are dropped.
unfoldable pub drop_before : ℕ → List ℕ → List ℕ
drop_before cutoff [] = []
drop_before cutoff (e ∷ es) =
    let rest = drop_before cutoff es in if ltb e cutoff then rest else e ∷ es

-- evict
unfoldable pub evict : ℕ → Bucket → Bucket
unfolding drop_before
evict now b = record b { events = drop_before (now - b.window) b.events }

-- `Allow` on the bucket; `true` is nil, `false` ErrRateLimited.
unfoldable pub allow_bucket : ℕ → Bucket → Bucket × Bool
unfolding evict
allow_bucket now b =
    let fresh = evict now b in
    if leb fresh.limit (length fresh.events)
    then (fresh, false)
    else (record fresh { events = append fresh.events (now ∷ []) }, true)

-- `AllowN` on the bucket, for a positive `n`.
unfoldable pub allow_n_bucket : ℕ → ℕ → Bucket → Bucket × Bool
unfolding evict
allow_n_bucket now n b =
    let fresh = evict now b in
    if ltb fresh.limit (length fresh.events + n)
    then (fresh, false)
    else (record fresh { events = append fresh.events (replicate n now) }, true)

abbrev pub bucket_or_new : Option Bucket → BucketTemplate → Bucket
bucket_or_new (some b) t = b
bucket_or_new none t = record { window = t.window; limit = t.limit; events = [] }

-- getOrCreateBucket; the caller writes the bucket back, which the source's pointer does.
unfoldable pub get_or_create_bucket : RateLimiter → String → String → Option Bucket
unfolding bucket_key
get_or_create_bucket rl session_id kind = elim (lookup String-discrete kind rl.templates) [
  | none ↦ none
  | some t ↦ some (bucket_or_new (lookup String-discrete (bucket_key session_id kind) rl.buckets) t)
]

put_bucket : RateLimiter → String → String → Bucket → RateLimiter
put_bucket rl session_id kind b = record rl {
  buckets = insert String-discrete (bucket_key session_id kind) b rl.buckets;
}

-- Allow
unfoldable pub allow : ℕ → RateLimiter → String → String → RateLimiter × Bool
unfolding get_or_create_bucket allow_bucket put_bucket
allow now rl session_id kind = elim (get_or_create_bucket rl session_id kind) [
  | none ↦ (rl, true)
  | some b ↦ (put_bucket rl session_id kind (allow_bucket now b).0, (allow_bucket now b).1)
]

-- AllowN
unfoldable pub allow_n : ℕ → RateLimiter → String → String → ℤ → RateLimiter × Bool
unfolding get_or_create_bucket allow_n_bucket put_bucket
allow_n now rl session_id kind (pos (suc n)) = elim (get_or_create_bucket rl session_id kind) [
  | none ↦ (rl, true)
  | some b ↦ (
    put_bucket rl session_id kind (allow_n_bucket now (suc n) b).0,
    (allow_n_bucket now (suc n) b).1,
  )
]
allow_n now rl session_id kind _ = (rl, true)

remove_prefix : String → Dict String Bucket → Dict String Bucket
remove_prefix prefix [] = []
remove_prefix prefix (e ∷ m) =
    let rest = remove_prefix prefix m in if starts_with e.key prefix then rest else e ∷ rest

-- RemoveSession
unfoldable pub remove_session : RateLimiter → String → RateLimiter
unfolding remove_prefix
remove_session rl session_id = record rl { buckets = remove_prefix (session_id ++ ":") rl.buckets }

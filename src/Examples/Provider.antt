-- ===== src/Examples/Provider.antt =====
-- Runs of internal/provider.
use sclaw.Prelude.{
  ℕ, zero, suc, ◌+◌, ◌*◌, ◌^◌, ◌≤◌, ◌<◌, min, String, ◌≡◌, ◌≢◌, ◌↔◌, ◌⊎◌, inl, inr, refl, true,
  false, Option, none, some, List, [], ◌∷◌, ◌++◌, arith, pos, All, leb, if◌then◌else◌,
  String-discrete,
}
use sclaw.Provider.Errors.{Error, rate_limit, provider_down, authentication, is_retryable, error_is}
use sclaw.Provider.Health.{
  HealthConfig, HealthTracker, healthy, cooldown, dead, Settings, defaults, new_health_tracker,
  is_available, should_health_check, record_success, record_failure,
}
use sclaw.Provider.Health.Backoff.{IsSane, IsValid, fail_times, new-IsValid, failure_schedule}
use sclaw.Provider.Health.Availability.{availability, dead_until_success}
use sclaw.Provider.Chain.{
  TrackedEntry, Attempt, answer, failure, ok, err, candidates, available_at, complete, stream,
  wrap_stream, exhausted, failover,
}
use sclaw.Provider.Chain.Candidates.{
  indices_from, is_direct, is_cover, Distinct, candidates-Distinct,
}
use sclaw.Provider.Chain.Failover.{verdict, from_verdicts, complete-eq-decide}
use sclaw.Provider.Chain.Answers.{
  FirstServes, complete_ok_iff, Passes, last_retry, complete-exhausted,
}
use sclaw.Provider.Chain.Keeps.{
  EntryIsValid, request-IsValid, retryable_chunks, wrap_stream_verdict,
}

abbrev config : HealthConfig
config = record {
  initial_backoff = pos 10;
  max_backoff = pos 60;
  max_failures = pos 3;
  check_interval = pos 5;
}

abbrev settings : Settings
settings = record { initial_backoff = 10; max_backoff = 60; max_failures = 3; check_interval = 5 }

settings-IsSane : IsSane (defaults config)
unfolding defaults
settings-IsSane = record {
  initial_positive = omega arith;
  initial_fits = omega arith;
  max_positive = omega arith;
  max_fits = omega arith;
  failures_positive = omega arith;
}

abbrev new_tracker : HealthTracker
new_tracker = record {
  cfg = settings;
  state = healthy;
  failures = 0;
  current_backoff = 0;
  cooldown_expires = 0;
}

abbrev dead_tracker : HealthTracker
dead_tracker = record {
  cfg = settings;
  state = dead;
  failures = 3;
  current_backoff = 20;
  cooldown_expires = 20;
}

new_tracker-IsValid : IsValid new_tracker
unfolding new_health_tracker defaults
new_tracker-IsValid = new-IsValid config settings-IsSane

failure_schedule_example :
    (2 < 3
      → ((fail_times (λ i. i) 2 new_tracker).state ≡ cooldown)
        × ((fail_times (λ i. i) 2 new_tracker).current_backoff ≡ min (10 * 2 ^ 1) 60)
        × ((fail_times (λ i. i) 2 new_tracker).cooldown_expires ≡ 1 + min (10 * 2 ^ 1) 60))
    × (3 ≤ 2 → (fail_times (λ i. i) 2 new_tracker).state ≡ dead)
failure_schedule_example = failure_schedule (λ i. i) new_tracker 1 new_tracker-IsValid refl

dead_until_success_example :
    (is_available 900 (fail_times (λ i. i) 2 dead_tracker) ≡ false)
    × (should_health_check 900 (fail_times (λ i. i) 2 dead_tracker) ≡ true)
dead_until_success_example = dead_until_success (λ i. i) 2 900 dead_tracker (omega arith) refl

availability_example :
    (is_available 7 (record_failure 5 new_tracker).0 ≡ (
      if leb 3 (0 + 1)
      then false
      else leb (5 + (record_failure 5 new_tracker).0.current_backoff) 7))
    × ((is_available 5 (record_success new_tracker).0 ≡ true)
        × ((record_success new_tracker).0.failures ≡ 0))
    × ((should_health_check 5 new_tracker ≡ true)
        ↔ ((healthy ≢ healthy) × ((healthy ≡ dead) ⊎ (is_available 5 new_tracker ≡ true))))
availability_example = availability 5 7 new_tracker new_tracker-IsValid

-- Providers named by a number: a main one, a fallback for every role, and a dead main one.
abbrev entry : String → ℕ → HealthTracker → TrackedEntry ℕ
entry role p h = record {
  name = "provider";
  provider = p;
  role = role;
  auth = none;
  health_config = config;
  fallback_for = [];
  health = h;
}

abbrev entries : List (TrackedEntry ℕ)
entries =
    entry "fallback" 0 new_tracker ∷ entry "main" 1 new_tracker ∷ entry "main" 2 dead_tracker ∷ []

-- The main provider is rate-limited, the fallback answers.
abbrev world : ℕ → Attempt String
world zero = record { interrupted = none; asked_at = 50; reply = answer "hello"; failed_at = 50 }
world (suc i) = record {
  interrupted = none;
  asked_at = 40;
  reply = failure (rate_limit ∷ []);
  failed_at = 45;
}

candidates_run : candidates "main" entries ≡ 1 ∷ 2 ∷ 0 ∷ []
unfolding candidates String-discrete
candidates_run = refl

complete_run : (complete "main" world entries).0 ≡ ok "hello"
unfolding complete candidates failover available_at String-discrete is_retryable error_is
    record_failure record_success is_available
complete_run = refl

candidates-Distinct_example :
    (candidates "main" entries
      ≡ indices_from (is_direct "main") 0 entries ++ indices_from (is_cover "main") 0 entries)
    × Distinct (candidates "main" entries)
candidates-Distinct_example = candidates-Distinct "main" entries

complete-eq-decide_example :
    ((complete "main" world entries).0
      ≡ from_verdicts "main" world entries (candidates "main" entries))
    × ((stream "main" world entries).0 ≡ (complete "main" world entries).0)
complete-eq-decide_example = complete-eq-decide "main" world entries

complete_ok_iff_example :
    ((complete "main" world entries).0 ≡ ok "hello")
    ↔ FirstServes (verdict world entries) "hello" (candidates "main" entries)
complete_ok_iff_example = complete_ok_iff "main" world entries "hello"

abbrev all_down : ℕ → Attempt String
all_down i = record {
  interrupted = none;
  asked_at = 40;
  reply = failure (provider_down ∷ []);
  failed_at = 45;
}

all_down_candidates : candidates "main" entries ≢ []
unfolding candidates String-discrete
all_down_candidates e = cc

all_down-Passes : All (λ i. Passes (verdict all_down entries i)) (candidates "main" entries)
unfolding candidates String-discrete verdict is_retryable error_is is_available available_at
all_down-Passes = (inr (provider_down ∷ [], refl), (inl refl, (inr (provider_down ∷ [], refl), tt)))

complete-exhausted_example :
    (complete "main" all_down entries).0
    ≡ err (exhausted (last_retry (verdict all_down entries) (candidates "main" entries) none))
complete-exhausted_example =
    complete-exhausted "main" all_down entries all_down_candidates all_down-Passes

abbrev fresh_entries : List (TrackedEntry ℕ)
fresh_entries = entry "main" 0 new_tracker ∷ entry "main" 1 new_tracker ∷ []

request-IsValid_example :
    All EntryIsValid (complete "main" world fresh_entries).1
    × All EntryIsValid (stream "main" world fresh_entries).1
request-IsValid_example =
    request-IsValid "main" world fresh_entries (new_tracker-IsValid, (new_tracker-IsValid, tt))

dead_entry_unavailable : available_at entries 2 (world 2).asked_at ≡ false
unfolding available_at is_available
dead_entry_unavailable = refl

abbrev chunks : List (ℕ × Option Error)
chunks = (1, none) ∷ (2, some (rate_limit ∷ [])) ∷ (3, some (authentication ∷ [])) ∷ []

wrap_stream_verdict_example :
    (retryable_chunks chunks ≡ 0
      → wrap_stream chunks false new_tracker ≡ (record_success new_tracker).0)
    × (0 < retryable_chunks chunks
        → (wrap_stream chunks false new_tracker).failures ≡ 0 + retryable_chunks chunks)
wrap_stream_verdict_example = wrap_stream_verdict chunks new_tracker

-- ===== src/Provider/Health/Availability.antt =====
-- When a tracker lets requests through (internal/provider/health.go).
use sclaw.Prelude.{
  ℕ, zero, suc, ◌+◌, ◌≤◌, ◌≡◌, ◌↔◌, ◌≢◌, ◌⊎◌, true, false, arith, leb, if◌then◌else◌,
}
use sclaw.Provider.Health.{
  healthy, dead, HealthTracker, record_success, record_failure, is_available, should_health_check,
}
use sclaw.Provider.Health.Backoff.{IsValid, fail_times}

fail_times-dead :
    (clock : ℕ → ℕ) (n : ℕ) (h : HealthTracker)
    → h.cfg.max_failures ≤ h.failures
    → h.state ≡ dead
    → ((fail_times clock n h).state ≡ dead)
      × ((fail_times clock n h).cfg.max_failures ≤ (fail_times clock n h).failures)
unfolding fail_times record_failure
fail_times-dead clock zero h le d = (d, le)
fail_times-dead clock (suc n) h le d = ground (arith, fail_times-dead clock n h le d)

-- No failure and no passing of time revives a dead tracker whose failures have reached the limit,
-- and it is always due for a probe.
pub dead_until_success :
    (clock : ℕ → ℕ) (n later : ℕ) (h : HealthTracker)
    → h.cfg.max_failures ≤ h.failures
    → h.state ≡ dead
    → (is_available later (fail_times clock n h) ≡ false)
      × (should_health_check later (fail_times clock n h) ≡ true)
unfolding is_available should_health_check
dead_until_success clock n later h le d = ground (arith, fail_times-dead clock n h le d)

-- After a failure a provider with a valid tracker is used again from the end of its backoff on, or never if the failure
-- was the last that it was allowed.
is_available-record_failure :
    (now later : ℕ) (h : HealthTracker)
    → IsValid h
    → let after = (record_failure now h).0 in
      is_available later after ≡ (
        if leb h.cfg.max_failures (h.failures + 1)
        then false
        else leb (now + after.current_backoff) later)
unfolding is_available record_failure
is_available-record_failure now later h v = ground arith

-- A success makes any tracker available at once, whatever it was before, and clears its failures.
is_available-record_success :
    (now : ℕ) (h : HealthTracker)
    → (is_available now (record_success h).0 ≡ true) × ((record_success h).0.failures ≡ 0)
unfolding is_available record_success
is_available-record_success now h = ground arith

-- A probe is due for exactly the trackers that are not healthy and are either dead or available.
should_health_check_iff :
    (now : ℕ) (h : HealthTracker)
    → (should_health_check now h ≡ true)
      ↔ ((h.state ≢ healthy) × ((h.state ≡ dead) ⊎ (is_available now h ≡ true)))
unfolding is_available should_health_check
should_health_check_iff now h = grind arith

-- What a valid tracker's availability depends on. After a failure the provider is used again from
-- the end of its backoff on, or never if the failure was the last that it was allowed. A success
-- makes it available at once, whatever it was before, and clears its failures. A probe is due
-- exactly if it is not healthy and is either dead or available.
pub availability :
    (now later : ℕ) (h : HealthTracker)
    → IsValid h
    → (let after = (record_failure now h).0 in
        is_available later after ≡ (
          if leb h.cfg.max_failures (h.failures + 1)
          then false
          else leb (now + after.current_backoff) later))
      × ((is_available now (record_success h).0 ≡ true) × ((record_success h).0.failures ≡ 0))
      × ((should_health_check now h ≡ true)
          ↔ ((h.state ≢ healthy) × ((h.state ≡ dead) ⊎ (is_available now h ≡ true))))
availability now later h v = (
  is_available-record_failure now later h v,
  is_available-record_success now h,
  should_health_check_iff now h,
)

-- ===== src/Provider/Health/Backoff.antt =====
-- The invariant of a tracker, and the exponential backoff (internal/provider/health.go).
use native.Mathlib.Nat.{pow-zero, pow-suc}
use sclaw.Prelude.{ℕ, zero, suc, ◌+◌, ◌*◌, ◌^◌, ◌≤◌, ◌<◌, min, ◌≡◌, refl, ◌⊎◌, arith, ap, ◌∙◌}
use sclaw.Provider.Health.{
  healthy, cooldown, dead, HealthConfig, Settings, HealthTracker, new_health_tracker, defaults,
  record_success, record_failure, next_backoff,
}

-- The settings that `defaults` leaves, with a cap of the backoff below 2^62 ns (146 years), so that
-- doubling does not overflow.
pub record IsSane (c : Settings) : Type 0 where
  pub initial_positive : 0 < c.initial_backoff
  pub initial_fits : c.initial_backoff < 2 ^ 63
  pub max_positive : 0 < c.max_backoff
  pub max_fits : c.max_backoff < 2 ^ 62
  pub failures_positive : 0 < c.max_failures

pub record IsValid (h : HealthTracker) : Type 0 where
  pub sane : IsSane h.cfg
  pub capped : h.current_backoff ≤ h.cfg.max_backoff
  pub healthy_clean : h.state ≡ healthy → (h.failures ≡ 0) × (h.current_backoff ≡ 0)
  pub cooling : h.state ≡ cooldown → (0 < h.failures) × (0 < h.current_backoff)
  pub alive_below : h.failures < h.cfg.max_failures → (h.state ≡ healthy) ⊎ (h.state ≡ cooldown)
  pub dead_from : h.cfg.max_failures ≤ h.failures → h.state ≡ dead
  pub started : h.failures ≡ 0 → h.current_backoff ≡ 0

pub new-IsValid : (c : HealthConfig) → IsSane (defaults c) → IsValid (new_health_tracker c)
unfolding new_health_tracker
new-IsValid c s = ground arith

pub record_success-IsValid : (h : HealthTracker) → IsValid h → IsValid (record_success h).0
unfolding record_success
record_success-IsValid h v = ground arith

pub record_failure-IsValid :
    (now : ℕ) (h : HealthTracker) → IsValid h → IsValid (record_failure now h).0
unfolding record_failure
record_failure-IsValid now h v = ground arith

-- Consecutive failures: the (n+1)-st happens at `clock n`.
unfoldable pub fail_times : (ℕ → ℕ) → ℕ → HealthTracker → HealthTracker
fail_times clock zero h = h
fail_times clock (suc n) h = (record_failure (clock n) (fail_times clock n h)).0

pub fail_times-cfg :
    (clock : ℕ → ℕ) (n : ℕ) (h : HealthTracker) → (fail_times clock n h).cfg ≡ h.cfg
unfolding fail_times record_failure
fail_times-cfg clock zero h = refl
fail_times-cfg clock (suc n) h = ground (arith, fail_times-cfg clock n h)

pub fail_times-failures :
    (clock : ℕ → ℕ) (n : ℕ) (h : HealthTracker) → (fail_times clock n h).failures ≡ h.failures + n
unfolding fail_times record_failure
fail_times-failures clock zero h = omega arith
fail_times-failures clock (suc n) h = ground (arith, fail_times-failures clock n h)

fail_times-IsValid :
    (clock : ℕ → ℕ) (n : ℕ) (h : HealthTracker) → IsValid h → IsValid (fail_times clock n h)
unfolding fail_times
fail_times-IsValid clock zero h v = v
fail_times-IsValid clock (suc n) h v =
    record_failure-IsValid (clock n) (fail_times clock n h) (fail_times-IsValid clock n h v)

-- One doubling of a capped value.
doubled :
    (a m : ℕ)
    → 0 < a
    → 0 < m
    → m < 2 ^ 62
    → (c : Settings) → c.max_backoff ≡ m
    → next_backoff c (min a m) ≡ min (a * 2) m
unfolding next_backoff
doubled a m pa pm h c e = ground arith

first_backoff : (c : Settings) → IsSane c → next_backoff c 0 ≡ min c.initial_backoff c.max_backoff
unfolding next_backoff
first_backoff c s = ground arith

-- One failure below the limit, seen from outside.
record_failure-cooldown :
    (now : ℕ) (h : HealthTracker)
    → IsValid h
    → h.failures + 1 < h.cfg.max_failures
    → ((record_failure now h).0.state ≡ cooldown)
      × ((record_failure now h).0.current_backoff ≡ next_backoff h.cfg h.current_backoff)
      × ((record_failure now h).0.cooldown_expires ≡ now + (record_failure now h).0.current_backoff)
unfolding record_failure
record_failure-cooldown now h v lt = ground arith

next_cooldown :
    (clock : ℕ → ℕ) (h : HealthTracker) (n : ℕ)
    → IsValid h
    → h.failures ≡ 0
    → suc n < h.cfg.max_failures
    → let before = fail_times clock n h in
      let after = fail_times clock (suc n) h in
      (after.state ≡ cooldown)
      × (after.current_backoff ≡ next_backoff before.cfg before.current_backoff)
      × (after.cooldown_expires ≡ clock n + after.current_backoff)
next_cooldown clock h n v z lt =
    unfold fail_times in
    record_failure-cooldown (clock n) (fail_times clock n h) (fail_times-IsValid clock n h v) (
      omega (
        arith,
        fail_times-failures clock n h,
        ap (λ (c : Settings). c.max_failures) (fail_times-cfg clock n h),
      ))

-- The (n+1)-st failure in a row backs off by the n-th doubling, up to the cap.
backoff_after :
    (clock : ℕ → ℕ) (h : HealthTracker) (n : ℕ)
    → IsValid h
    → h.failures ≡ 0
    → next_backoff h.cfg (fail_times clock n h).current_backoff
      ≡ min (h.cfg.initial_backoff * 2 ^ n) h.cfg.max_backoff
    → suc n < h.cfg.max_failures
    → (fail_times clock (suc n) h).current_backoff
      ≡ min (h.cfg.initial_backoff * 2 ^ n) h.cfg.max_backoff
backoff_after clock h n v z e lt =
    (next_cooldown clock h n v z lt).1
    ∙ ap (λ (c : Settings). next_backoff c (fail_times clock n h).current_backoff)
        (fail_times-cfg clock n h)
    ∙ e

power_positive : (a n : ℕ) → 0 < a → 0 < a * 2 ^ n
power_positive a zero h = rw pow-zero (omega arith)
power_positive a (suc n) h = rw pow-suc (omega (arith, power_positive a n h))

backoff_closed :
    (clock : ℕ → ℕ) (h : HealthTracker) (n : ℕ)
    → IsValid h
    → h.failures ≡ 0
    → suc n < h.cfg.max_failures
    → (fail_times clock (suc n) h).current_backoff
      ≡ min (h.cfg.initial_backoff * 2 ^ n) h.cfg.max_backoff
backoff_closed clock h zero v z lt =
    backoff_after clock h zero v z
      (unfold fail_times in rw (v.started z) (first_backoff h.cfg v.sane ∙ omega arith)) lt
backoff_closed clock h (suc n) v z lt =
    backoff_after clock h (suc n) v z
      (rw (backoff_closed clock h n v z (omega arith)) (
        doubled (h.cfg.initial_backoff * 2 ^ n) h.cfg.max_backoff
          (power_positive _ n v.sane.initial_positive) v.sane.max_positive v.sane.max_fits h.cfg
          refl
        ∙ rw pow-suc (omega arith)))
      lt

-- What a valid tracker with no failure becomes after n + 1 failures in a row. Below the limit it
-- cools down, with the initial backoff doubled n times and capped, from the last failure on; from
-- the limit on it is dead.
pub failure_schedule :
    (clock : ℕ → ℕ) (h : HealthTracker) (n : ℕ)
    → IsValid h
    → h.failures ≡ 0
    → (suc n < h.cfg.max_failures
        → let after = fail_times clock (suc n) h in
          let backoff = min (h.cfg.initial_backoff * 2 ^ n) h.cfg.max_backoff in
          (after.state ≡ cooldown)
          × (after.current_backoff ≡ backoff)
          × (after.cooldown_expires ≡ clock n + backoff))
      × (h.cfg.max_failures ≤ suc n → (fail_times clock (suc n) h).state ≡ dead)
failure_schedule clock h n v z = (
  λ lt.
      let cool = next_cooldown clock h n v z lt in
      let closed = backoff_closed clock h n v z lt in (cool.0, closed, rw (← closed) cool.2),
  λ le. (fail_times-IsValid clock (suc n) h v).dead_from (
      omega (
        arith,
        fail_times-failures clock (suc n) h,
        ap (λ (c : Settings). c.max_failures) (fail_times-cfg clock (suc n) h),
      )),
)

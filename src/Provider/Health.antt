-- ===== src/Provider/Health.antt =====
-- internal/provider/health.go: the tracker of one provider. A method takes the clock reading
-- that the source takes from `now`; the state-change callback is the pair that it is called with.
-- Times are nanoseconds in ℕ; a duration that is computed is the 64-bit pattern of an int64.
pub mod Backoff
pub mod Availability
use sclaw.Prelude.{
  ℕ, zero, suc, ◌+◌, ◌-◌, ◌*◌, ◌%◌, ◌^◌, String, Bool, true, false, not, ◌&&◌, Option, none, some,
  ℤ, ltb, leb, ◌==◌, if◌then◌else◌, positive_or,
}

pub data HealthState : Type 0 where
  healthy cooldown dead : HealthState

-- String()
unfoldable pub state_string : HealthState → String
state_string healthy = "healthy"
state_string cooldown = "cooldown"
state_string dead = "dead"

-- The configuration as given; any field may be zero or negative.
pub record HealthConfig : Type 0 where
  pub initial_backoff : ℤ
  pub max_backoff : ℤ
  pub max_failures : ℤ
  pub check_interval : ℤ

-- The configuration after `defaults`, when every field is positive.
pub record Settings : Type 0 where
  pub initial_backoff : ℕ
  pub max_backoff : ℕ
  pub max_failures : ℕ
  pub check_interval : ℕ

abbrev pub second : ℕ
second = 1_000_000_000

unfoldable pub check_interval_or_default : HealthConfig → ℕ
check_interval_or_default c = positive_or c.check_interval (10 * second)

unfoldable pub defaults : HealthConfig → Settings
defaults c = record {
  initial_backoff = positive_or c.initial_backoff second;
  max_backoff = positive_or c.max_backoff (60 * second);
  max_failures = positive_or c.max_failures 5;
  check_interval = positive_or c.check_interval (10 * second);
}

pub record HealthTracker : Type 0 where
  pub cfg : Settings
  pub state : HealthState
  pub failures : ℕ
  pub current_backoff : ℕ
  pub cooldown_expires : ℕ

unfoldable pub new_health_tracker : HealthConfig → HealthTracker
unfolding defaults
new_health_tracker c = record {
  cfg = defaults c;
  state = healthy;
  failures = 0;
  current_backoff = 0;
  cooldown_expires = 0;
}

abbrev available_in : HealthState → ℕ → ℕ → Bool
available_in healthy now expires = true
available_in cooldown now expires = not (ltb now expires)
available_in dead now expires = false

-- IsAvailable
unfoldable pub is_available : ℕ → HealthTracker → Bool
is_available now h = available_in h.state now h.cooldown_expires

abbrev needs_probe : HealthState → ℕ → ℕ → Bool
needs_probe dead now expires = true
needs_probe cooldown now expires = not (ltb now expires)
needs_probe healthy now expires = false

-- ShouldHealthCheck
unfoldable pub should_health_check : ℕ → HealthTracker → Bool
should_health_check now h = needs_probe h.state now h.cooldown_expires

abbrev pub same_state : HealthState → HealthState → Bool
same_state healthy healthy = true
same_state cooldown cooldown = true
same_state dead dead = true
same_state _ _ = false

-- What the callback is called with: nothing if the state has not changed.
abbrev notice : HealthState → HealthState → Option (HealthState × HealthState)
notice prev next = if same_state prev next then none else some (prev, next)

-- RecordSuccess
unfoldable pub record_success : HealthTracker → HealthTracker × Option (HealthState × HealthState)
record_success h =
    (record h { state = healthy; failures = 0; current_backoff = 0 }, notice h.state healthy)

-- `d * 2` on an int64.
abbrev pub twice_int64 : ℕ → ℕ
twice_int64 d = d * 2 % 2 ^ 64

-- `d > limit` on an int64 and a limit that is not negative.
abbrev pub exceeds_int64 : ℕ → ℕ → Bool
exceeds_int64 d limit = ltb d (2 ^ 63) && ltb limit d

-- `now.Add(d)`.
abbrev pub add_int64 : ℕ → ℕ → ℕ
add_int64 now d = if ltb d (2 ^ 63) then now + d else now - (2 ^ 64 - d)

-- The backoff of the next cooldown.
next_backoff : Settings → ℕ → ℕ
next_backoff cfg current =
    let grown = if current == 0 then cfg.initial_backoff else twice_int64 current in
    if exceeds_int64 grown cfg.max_backoff then cfg.max_backoff else grown

-- RecordFailure
unfoldable pub record_failure :
    ℕ → HealthTracker → HealthTracker × Option (HealthState × HealthState)
unfolding next_backoff
record_failure now h =
    if leb h.cfg.max_failures (h.failures + 1)
    then (record h { failures = h.failures + 1; state = dead }, notice h.state dead)
    else let backoff = next_backoff h.cfg h.current_backoff in
      (
        record h {
          failures = h.failures + 1;
          current_backoff = backoff;
          cooldown_expires = add_int64 now backoff;
          state = cooldown;
        },
        notice h.state cooldown,
      )

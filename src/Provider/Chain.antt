-- ===== src/Provider/Chain.antt =====
-- internal/provider/chain.go: failover over an ordered list of providers. A provider is an
-- interface whose answers, like the clock and the context, are the argument `world`; `P` is the
-- type of the provider values. Logging is left out.
pub mod Auth
pub mod Candidates
pub mod Failover
pub mod Probes
pub mod Keeps
pub mod Answers
use sclaw.Prelude.{
  ℕ, zero, suc, ◌+◌, ◌*◌, String, ◌≡◌, Bool, true, false, not, ◌&&◌, ◌||◌, Option, none, some, List,
  [], ◌∷◌, ◌++◌, map, ltb, if◌then◌else◌, is_yes, String-discrete, get_elem?, modify,
}
use sclaw.Provider.Errors.{Error, all_providers, no_provider, is_retryable, is_rate_limit}
use sclaw.Provider.Health.{
  HealthState, HealthConfig, HealthTracker, new_health_tracker, check_interval_or_default,
  is_available, record_success, record_failure, should_health_check, state_string, second,
}
use Auth.{AuthProfile, rotate}

abbrev pub Role : Type 0
Role = String

abbrev pub role_fallback : Role
role_fallback = "fallback"

-- ChainEntry
pub record ChainEntry (P : Type 0) : Type 0 where
  pub name : String
  pub provider : Option P
  pub role : Role
  pub auth : Option AuthProfile
  pub health : HealthConfig
  pub fallback_for : List Role

-- chainEntry, with the tracker.
pub record TrackedEntry (P : Type 0) : Type 0 where
  pub name : String
  pub provider : P
  pub role : Role
  pub auth : Option AuthProfile
  pub health_config : HealthConfig
  pub fallback_for : List Role
  pub health : HealthTracker

pub data Result (A : Type 0) : Type 0 where
  ok : A → Result A
  err : Error → Result A

-- What a provider answers to one request.
pub data Reply (R : Type 0) : Type 0 where
  answer : R → Reply R
  failure : Error → Reply R

-- What the outside does while one candidate is tried: the context's error, if it has one by then,
-- the clock when availability is read, the provider's reply, and the clock when a failure is noted.
pub record Attempt (R : Type 0) : Type 0 where
  pub interrupted : Option Error
  pub asked_at : ℕ
  pub reply : Reply R
  pub failed_at : ℕ

has_role : Role → List Role → Bool
has_role role [] = false
has_role role (r ∷ rs) = is_yes (String-discrete r role) || has_role role rs

-- isFallbackFor
unfoldable pub is_fallback_for : List Role → Role → Bool
unfolding has_role
is_fallback_for [] role = true
is_fallback_for (r ∷ rs) role = has_role role (r ∷ rs)

rotate_auth : Error → Option AuthProfile → Option AuthProfile
rotate_auth x none = none
rotate_auth x (some a) = if is_rate_limit x then some (rotate a).0 else some a

module _ {P : Type 0} where
  prepend : TrackedEntry P → Result (List (TrackedEntry P)) → Result (List (TrackedEntry P))
  prepend e (ok es) = ok (e ∷ es)
  prepend e (err x) = err x

  track : Option P → ChainEntry P → Result (TrackedEntry P)
  track none e = err (no_provider ∷ [])
  track (some p) e = ok (record {
    name = e.name;
    provider = p;
    role = e.role;
    auth = e.auth;
    health_config = e.health;
    fallback_for = e.fallback_for;
    health = new_health_tracker e.health;
  })

  track_all : List (ChainEntry P) → Result (List (TrackedEntry P))
  unfolding prepend track
  track_all [] = ok []
  track_all (e ∷ es) =
      let rest = track_all es in elim (track e.provider e) [ ok t ↦ prepend t rest | err x ↦ err x ]

  -- NewChain
  unfoldable pub new_chain : List (ChainEntry P) → Result (List (TrackedEntry P))
  unfolding track_all
  new_chain [] = err (no_provider ∷ [])
  new_chain (e ∷ es) = track_all (e ∷ es)

  -- The loop of `candidates` from index `i`: the direct matches and the fallbacks, by index.
  unfoldable pub split_candidates : Role → ℕ → List (TrackedEntry P) → List ℕ × List ℕ
  unfolding is_fallback_for
  split_candidates role i [] = ([], [])
  split_candidates role i (e ∷ es) =
      let (direct, fallbacks) = split_candidates role (suc i) es in
      if is_yes (String-discrete e.role role)
      then (i ∷ direct, fallbacks)
      else if is_yes (String-discrete e.role role_fallback) && is_fallback_for e.fallback_for role
      then (direct, i ∷ fallbacks)
      else (direct, fallbacks)

  -- candidates
  unfoldable pub candidates : Role → List (TrackedEntry P) → List ℕ
  unfolding split_candidates
  candidates role es = let (direct, fallbacks) = split_candidates role 0 es in direct ++ fallbacks

  abbrev available_entry : ℕ → Option (TrackedEntry P) → Bool
  available_entry now none = false
  available_entry now (some e) = is_available now e.health

  -- e.health.IsAvailable(), of the entry at an index.
  unfoldable pub available_at : List (TrackedEntry P) → ℕ → ℕ → Bool
  available_at es i now = available_entry now (get_elem? es i)

  -- e.health.RecordSuccess()
  unfoldable pub entry_success : TrackedEntry P → TrackedEntry P
  entry_success e = record e { health = (record_success e.health).0 }

  -- A retryable error: the key is rotated on a rate limit, and the failure recorded.
  unfoldable pub entry_failure : ℕ → Error → TrackedEntry P → TrackedEntry P
  unfolding rotate_auth
  entry_failure now x e = record e {
    auth = rotate_auth x e.auth;
    health = (record_failure now e.health).0;
  }

-- The error when no candidate is left.
unfoldable pub exhausted : Option Error → Error
exhausted none = all_providers ∷ []
exhausted (some last) = all_providers ∷ last

module _ {P R : Type 0} where
  -- The loop that `Complete` and `Stream` share, over the indices of the candidates; `settle` is
  -- what is done to the entry that answers.
  unfoldable pub failover :
      (TrackedEntry P → TrackedEntry P)
      → (ℕ → Attempt R)
      → List ℕ
      → Option Error
      → List (TrackedEntry P)
      → Result R × List (TrackedEntry P)
  unfolding exhausted
  failover settle world [] last es = (err (exhausted last), es)
  failover settle world (i ∷ is) last es =
      let skip = failover settle world is last es in
      let retry = λ (x : Error).
        failover settle world is (some x) (modify es i (entry_failure (world i).failed_at x)) in
      elim (world i).interrupted [
        | some x ↦ (err x, es)
        | none ↦
            if available_at es i (world i).asked_at
            then elim (world i).reply [
              | answer r ↦ (ok r, modify es i settle)
              | failure x ↦ if is_retryable x then retry x else (err x, es)
            ]
            else skip
      ]

  over_candidates :
      (TrackedEntry P → TrackedEntry P)
      → (ℕ → Attempt R)
      → List ℕ
      → List (TrackedEntry P)
      → Result R × List (TrackedEntry P)
  over_candidates settle world [] es = (err (no_provider ∷ []), es)
  over_candidates settle world (i ∷ is) es = failover settle world (i ∷ is) none es

  -- Complete
  unfoldable pub complete :
      Role → (ℕ → Attempt R) → List (TrackedEntry P) → Result R × List (TrackedEntry P)
  unfolding over_candidates
  complete role world es = over_candidates entry_success world (candidates role es) es

  -- Stream, up to the return of the wrapped channel: an answer has not counted as a success yet.
  unfoldable pub stream :
      Role → (ℕ → Attempt R) → List (TrackedEntry P) → Result R × List (TrackedEntry P)
  unfolding over_candidates
  stream role world es = over_candidates (λ e. e) world (candidates role es) es

-- The goroutine of `wrapStream`, over the errors of the chunks of a stream that is read to its
-- end, each with the clock at which it passes. `saw` is the source's sawError.
unfoldable pub wrap_stream : List (ℕ × Option Error) → Bool → HealthTracker → HealthTracker
wrap_stream [] saw h = if saw then h else (record_success h).0
wrap_stream ((now, none) ∷ chunks) saw h = wrap_stream chunks saw h
wrap_stream ((now, some x) ∷ chunks) saw h =
    wrap_stream chunks (saw || is_retryable x)
      (if is_retryable x then (record_failure now h).0 else h)

module _ {P : Type 0} where
  first_available : ℕ → List (TrackedEntry P) → List ℕ → Option ℕ
  first_available now es [] = none
  first_available now es (i ∷ is) =
      if available_at es i now then some i else first_available now es is

  -- GetProvider, as the index of the entry whose provider is returned; `none` is ErrNoProvider.
  unfoldable pub get_provider : ℕ → Role → List (TrackedEntry P) → Option ℕ
  unfolding first_available
  get_provider now role es = first_available now es (candidates role es)

  probed : Option Bool → TrackedEntry P → TrackedEntry P
  probed (some true) e = entry_success e
  probed _ e = e

  -- One tick of `runHealthChecks`. `checker` tells whether a provider has a health check, and if
  -- so whether the check succeeds.
  unfoldable pub health_tick : ℕ → (P → Option Bool) → List (TrackedEntry P) → List (TrackedEntry P)
  unfolding probed
  health_tick now checker [] = []
  health_tick now checker (e ∷ es) =
      (if should_health_check now e.health then probed (checker e.provider) e else e)
      ∷ health_tick now checker es

-- Status
pub record Status : Type 0 where
  pub name : String
  pub role : Role
  pub state : String
  pub failures : ℕ
  pub current_backoff : ℕ
  pub available : Bool

module _ {P : Type 0} where
  entry_status : ℕ → TrackedEntry P → Status
  entry_status now e = record {
    name = e.name;
    role = e.role;
    state = state_string e.health.state;
    failures = e.health.failures;
    current_backoff = e.health.current_backoff;
    available = is_available now e.health;
  }

  -- HealthReport
  unfoldable pub health_report : ℕ → List (TrackedEntry P) → List Status
  unfolding entry_status
  health_report now es = map (entry_status now) es

  least_interval : ℕ → List (TrackedEntry P) → ℕ
  least_interval interval [] = interval
  least_interval interval (e ∷ es) =
      least_interval
        (let d = check_interval_or_default e.health_config in
          if ltb d interval then d else interval)
        es

  -- minHealthCheckInterval
  unfoldable pub min_health_check_interval : List (TrackedEntry P) → ℕ
  unfolding least_interval
  min_health_check_interval [] = 10 * second
  min_health_check_interval (e ∷ es) = least_interval (check_interval_or_default e.health_config) es

-- ===== src/Provider/Chain/Probes.antt =====
-- What a tick of the background health checks does (internal/provider/chain.go).
use sclaw.Prelude.{
  ℕ, zero, suc, ◌≡◌, refl, Bool, true, false, ◌&&◌, ◌||◌, Option, none, some, List, [], ◌∷◌, arith,
  get_elem?,
}
use sclaw.Provider.Health.{is_available, should_health_check, record_success}
use sclaw.Provider.Chain.{TrackedEntry, health_tick, entry_success, available_at}

abbrev succeeds : Option Bool → Bool
succeeds (some true) = true
succeeds _ = false

-- The entry at an index is due for a probe, and its provider has a check that succeeds.
abbrev pub revived : {P : Type 0} → ℕ → (P → Option Bool) → Option (TrackedEntry P) → Bool
revived now checker none = false
revived now checker (some e) = should_health_check now e.health && succeeds (checker e.provider)

-- After a tick an entry is available, at any time, exactly if it was before or a probe revived it:
-- no probe takes a provider away, and a dead one comes back by a successful probe only.
pub available_at-health_tick :
    {P : Type 0} (now later : ℕ) (checker : P → Option Bool) (es : List (TrackedEntry P)) (i : ℕ)
    → available_at (health_tick now checker es) i later
      ≡ (available_at es i later || revived now checker (get_elem? es i))
unfolding available_at health_tick entry_success is_available record_success
available_at-health_tick now later checker [] i = refl
available_at-health_tick now later checker (e ∷ es) zero = ground arith
available_at-health_tick now later checker (e ∷ es) (suc i) =
    available_at-health_tick now later checker es i

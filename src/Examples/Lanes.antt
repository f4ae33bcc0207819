-- ===== src/Examples/Lanes.antt =====
-- Runs of internal/router/lane.go.
use sclaw.Prelude.{ℕ, String, ◌≡◌, refl, false, some, get_elem?, String-discrete}
use sclaw.Prelude.Dict.{lookup, insert}
use sclaw.Router.Lane.{
  Locks, inside, Step, acquire_enters, acquire_locks, here, next, new_lane_lock, acquire_enter,
  lock, enroll, ensure, goto, on_lane,
}
use sclaw.Router.Lane.Invariant.{Inv}
use sclaw.Router.Lane.Exclusion.{mutual_exclusion, new_lane_lock-Inv}
use sclaw.Router.Lane.Steps.{Step-Inv}

abbrev entered : Locks String
entered = acquire_enter String-discrete 0 "s" (new_lane_lock 2)

abbrev locked : Locks String
locked = lock 0 "s" 0 entered

enters : Step String-discrete (new_lane_lock 2) entered
unfolding new_lane_lock
enters = acquire_enters 0 "s" refl

locks : Step String-discrete entered locked
unfolding acquire_enter enroll ensure goto on_lane new_lane_lock String-discrete lookup insert
locks = acquire_locks 0 "s" 0 (record { held = false; refs = 1; stale = false }) refl refl refl

locked_inside : get_elem? locked.threads 0 ≡ some (inside "s" 0)
unfolding acquire_enter enroll ensure goto on_lane new_lane_lock String-discrete lookup insert lock
locked_inside = refl

mutual_exclusion_example : ◌≡◌ {A = ℕ} 0 0
mutual_exclusion_example =
    mutual_exclusion String-discrete 2 locked (next (next here enters) locks) 0 0 "s" 0 0
      locked_inside locked_inside

Step-Inv_example : Inv String-discrete entered
Step-Inv_example = Step-Inv String-discrete enters (new_lane_lock-Inv String-discrete 2)

-- ===== src/Provider/Errors.antt =====
-- internal/provider/errors.go. A Go error is modelled by the sentinels that it is or wraps, which
-- is all that `errors.Is` reads; `fmt.Errorf("%w: %w", a, b)` wraps those of both.
use sclaw.Prelude.{Bool, true, false, ◌||◌, List, [], ◌∷◌}

pub data Sentinel : Type 0 where
  rate_limit context_length provider_down all_providers no_provider authentication : Sentinel
  cancelled deadline_exceeded other : Sentinel

abbrev pub Error : Type 0
Error = List Sentinel

abbrev pub same_sentinel : Sentinel → Sentinel → Bool
same_sentinel rate_limit rate_limit = true
same_sentinel context_length context_length = true
same_sentinel provider_down provider_down = true
same_sentinel all_providers all_providers = true
same_sentinel no_provider no_provider = true
same_sentinel authentication authentication = true
same_sentinel cancelled cancelled = true
same_sentinel deadline_exceeded deadline_exceeded = true
same_sentinel other other = true
same_sentinel _ _ = false

-- errors.Is
unfoldable pub error_is : Error → Sentinel → Bool
error_is [] s = false
error_is (e ∷ es) s = same_sentinel e s || error_is es s

unfoldable pub is_retryable : Error → Bool
is_retryable err = error_is err rate_limit || error_is err provider_down

unfoldable pub is_rate_limit : Error → Bool
is_rate_limit err = error_is err rate_limit

-- ===== src/Examples/Hook.antt =====
-- Runs of internal/hook/pipeline.go.
use native.Mathlib.Decide.{ℕ_discrete}
use sclaw.Prelude.{ℕ, ◌≡◌, refl, List, [], ◌∷◌, pos, negsuc, if◌then◌else◌, total, ◌==◌, arith, ℤ}
use sclaw.Hook.{
  before_process, before_send, after_send, continue, drop, modify, Hook, Pipeline, new_pipeline,
  register, run_before_process, run_before_send, run_after_send,
}
use sclaw.Hook.Order.{Ordered, register_all, at_position, last_place, register_all-Ordered}
use sclaw.Hook.Runs.{after_all, Ended, modifies, runs_in_order}

abbrev priority_of : ℕ → ℤ
priority_of n =
    if n == 3 then pos 9 else if n == 0 then pos 7 else if n == 2 then negsuc 0 else pos 5

-- A hook writes its number down, and hook 0 drops the message.
abbrev hook : Hook ℕ (List ℕ)
hook = record {
  position = λ n. before_process;
  priority = priority_of;
  execute = λ n w. (if n == 0 then drop else continue, n ∷ w);
}

-- Hook 1 is registered again after hook 4, and so runs after it, twice.
abbrev hooks : List ℕ
hooks = 3 ∷ 0 ∷ 1 ∷ 2 ∷ 4 ∷ 1 ∷ []

abbrev pipeline : Pipeline ℕ
pipeline = register_all hook ℕ_discrete hooks new_pipeline

hooks_run : run_before_process hook pipeline [] ≡ (drop, 0 ∷ 1 ∷ 1 ∷ 4 ∷ 2 ∷ [])
unfolding run_before_process register_all register ℕ_discrete
hooks_run = refl

register_all-Ordered_example :
    Ordered hook
      (λ h. last_place hook ℕ_discrete 0 0 h hooks)
      ((register_all hook ℕ_discrete hooks new_pipeline).hooks before_process)
    × ((t : ℕ → ℕ)
        → total t ((register_all hook ℕ_discrete hooks new_pipeline).hooks before_process)
          ≡ total t (at_position hook ℕ_discrete before_process hooks))
register_all-Ordered_example =
    register_all-Ordered hook ℕ_discrete hooks before_process
      (omega arith, (omega arith, (omega arith, (omega arith, (omega arith, (omega arith, tt))))))

runs_in_order_example :
    Ended hook (pipeline.hooks before_process) [] (run_before_process hook pipeline [])
    × (run_before_send hook pipeline [] ≡ (
      if modifies hook (pipeline.hooks before_send) [] then modify else continue,
      after_all hook (pipeline.hooks before_send) [],
    ))
    × (run_after_send hook pipeline [] ≡ after_all hook (pipeline.hooks after_send) [])
runs_in_order_example = runs_in_order hook pipeline []

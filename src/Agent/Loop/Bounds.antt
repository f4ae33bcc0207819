-- ===== src/Agent/Loop/Bounds.antt =====
-- internal/agent/loop.go: how a run of the loop ends, and within which bounds.
use sclaw.Prelude.{
  ℕ, suc, ◌≤◌, ◌<◌, true, false, Option, none, some, ◌≡◌, ◌≢◌, ◌↔◌, refl, pos, arith, positive_or,
}
use sclaw.Provider.Errors.{Error}
use sclaw.Agent.Guards.{TokenTracker, add_usage, exceeded}
use sclaw.Agent.Loop.{
  World, LoopConfig, Request, StopReason, complete, max_iterations, loop_detected, token_budget,
  timeout, error, LoopError, token_budget_exceeded, max_iterations_reached, loop_found, cancelled,
  deadline_exceeded, provider_failed, LoopState, finish, act, start, with_defaults, run, Context,
  live, done, past_deadline, reason_of, context_error,
}
use sclaw.Agent.Loop.Turns.{Out, run_from-keeps}

-- Which error comes with which reason to stop.
pub data Ends : StopReason → Option LoopError → Type 0 where
  completes : Ends complete none
  exhausts : Ends max_iterations (some max_iterations_reached)
  repeats : Ends loop_detected (some loop_found)
  overspends : Ends token_budget (some token_budget_exceeded)
  times_out : Ends timeout (some deadline_exceeded)
  cancels : Ends error (some cancelled)
  fails : (e : Error) → Ends error (some (provider_failed e))

Within : ℕ → Out → Type 0
Within n out =
    Ends out.0.stop_reason out.1
    × (out.0.iterations ≤ n)
    × (out.0.stop_reason ≡ max_iterations → out.0.iterations ≡ n)

context-Ends : (k : Context) → k ≢ live → Ends (reason_of k) (some (context_error k))
context-Ends live h = absurd (h refl)
context-Ends done h = cancels
context-Ends past_deadline h = times_out

not_exhausted : (k : Context) → reason_of k ≢ max_iterations
not_exhausted live e = cc
not_exhausted done e = cc
not_exhausted past_deadline e = cc

-- A run of the loop ends after at most the configured number of iterations, with the error that
-- belongs to its reason to stop; one that ends for that number has run exactly so many.
pub run-Within :
    (world : World) (cfg : LoopConfig) (req : Request)
    → Ends (run world cfg req).0.stop_reason (run world cfg req).1
      × ((run world cfg req).0.iterations ≤ positive_or cfg.max_iterations 10)
      × ((run world cfg req).0.stop_reason ≡ max_iterations
          → (run world cfg req).0.iterations ≡ positive_or cfg.max_iterations 10)
unfolding run finish with_defaults Within
run-Within world cfg req =
    run_from-keeps world cfg.provider_name n (λ i s. Unit) (Within n)
      (λ i s h p. record {
        on_context = λ l. (
          context-Ends (world.context i) l,
          omega arith,
          λ e. absurd (not_exhausted (world.context i) e),
        );
        on_failure = λ e. (fails e, omega arith, λ x. cc);
        on_budget = λ resp e. (overspends, omega arith, λ x. cc);
        on_complete = λ resp e. (completes, omega arith, λ x. cc);
        on_loop = λ resp e d f. (repeats, omega arith, λ x. cc);
        on_tools = λ resp e d f. tt;
      })
      (λ s p. (exhausts, omega arith, λ x. refl)) n 0 (start (with_defaults cfg) req) (omega arith)
      tt
  where
    n : ℕ
    n = positive_or cfg.max_iterations 10

exceeded_iff :
    (t : TokenTracker) (b : ℕ)
    → t.budget ≡ pos (suc b)
    → (exceeded t ≡ true → suc b ≤ t.usage.total_tokens)
      × (exceeded t ≡ false → t.usage.total_tokens < suc b)
unfolding exceeded
exceeded_iff t b h = (λ e. ground arith, λ e. ground arith)

context_reason : (k : Context) → reason_of k ≢ token_budget
context_reason live e = cc
context_reason done e = cc
context_reason past_deadline e = cc

Spent : ℕ → Out → Type 0
Spent b out = out.0.stop_reason ≡ token_budget ↔ suc b ≤ out.0.total_usage.total_tokens

below :
    {r : StopReason} {used b : ℕ}
    → r ≢ token_budget
    → used < suc b
    → r ≡ token_budget ↔ suc b ≤ used
below h l = (λ e. absurd (h e), λ g. absurd (not_both l g))
  where
    not_both : {used b : ℕ} → used < suc b → suc b ≤ used → ⊥
    not_both l g = omega arith

Under : ℕ → LoopState → Type 0
Under b s = (s.tracker.budget ≡ pos (suc b)) × (s.tracker.usage.total_tokens < suc b)

-- With a positive budget, a run stops for the budget exactly when the tokens it used have reached it.
pub run-token_budget :
    (world : World) (cfg : LoopConfig) (req : Request) (b : ℕ)
    → cfg.token_budget ≡ pos (suc b)
    → (run world cfg req).0.stop_reason ≡ token_budget
      ↔ suc b ≤ (run world cfg req).0.total_usage.total_tokens
unfolding run finish with_defaults start add_usage act Spent Under
run-token_budget world cfg req b h =
    run_from-keeps world cfg.provider_name n (λ i s. Under b s) (Spent b)
      (λ i s l p. record {
        on_context = λ g. below (context_reason (world.context i)) p.1;
        on_failure = λ e. below (λ x. cc) p.1;
        on_budget =
            λ resp e. (λ x. (exceeded_iff (add_usage s.tracker resp.usage) b p.0).0 e, λ x. refl);
        on_complete =
            λ resp e. below (λ x. cc) ((exceeded_iff (add_usage s.tracker resp.usage) b p.0).1 e);
        on_loop = λ resp e d f.
            below (λ x. cc) ((exceeded_iff (add_usage s.tracker resp.usage) b p.0).1 e);
        on_tools = λ resp e d f. (p.0, (exceeded_iff (add_usage s.tracker resp.usage) b p.0).1 e);
      })
      (λ s p. below (λ x. cc) p.1) n 0 (start (with_defaults cfg) req) (omega arith)
      (h, omega arith)
  where
    n : ℕ
    n = positive_or cfg.max_iterations 10

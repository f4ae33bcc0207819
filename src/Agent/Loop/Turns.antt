-- ===== src/Agent/Loop/Turns.antt =====
-- internal/agent/loop.go: one iteration of Run by the ways it ends, and what a run keeps.
use sclaw.Prelude.{
  ℕ, zero, suc, ◌+◌, ◌<◌, String, Bool, true, false, Option, none, some, List, [], ◌∷◌, ◌≡◌, ◌≢◌,
  ◌∙◌, inl, inr, refl, sym, subst, arith, Bool-cases,
}
use sclaw.Provider.Errors.{Error}
use sclaw.Provider.Types.{CompletionResponse, ToolCall}
use sclaw.Agent.Guards.{LoopDetector, add_usage, exceeded}
use sclaw.Agent.Loop.{
  World, Response, complete, max_iterations, loop_detected, token_budget, error, LoopError,
  token_budget_exceeded, max_iterations_reached, loop_found, provider_failed, LoopState, Turn,
  finish, act, call_tools, answer, round, run_from, Context, live, done, past_deadline, Completion,
  completed, completion_failed, reason_of, context_error, record_calls,
}

abbrev pub Out : Type 0
Out = Response × Option LoopError

-- One predicate of the variables of the next iteration, another of what Run returns.
abbrev pub Holds : (LoopState → Type 0) → (Out → Type 0) → Turn → Type 0
Holds P Q (inl t) = P t
Holds P Q (inr out) = Q out

abbrev pub spend : CompletionResponse → LoopState → LoopState
spend resp s = record s { tracker = add_usage s.tracker resp.usage }

done≢live : done ≢ live
done≢live e = cc

past_deadline≢live : past_deadline ≢ live
past_deadline≢live e = cc

module _ (world : World) (name : String) (P : LoopState → Type 0) (Q : Out → Type 0) (i : ℕ) where
  module _ (s : LoopState) where
    -- The cases of an iteration.
    pub record Cases : Type 0 where
      pub on_context :
          world.context i ≢ live
          → Q (
            finish world name i "" (reason_of (world.context i)) s,
            some (context_error (world.context i)),
          )
      pub on_failure : (e : Error) → Q (finish world name i "" error s, some (provider_failed e))
      pub on_budget :
          (resp : CompletionResponse)
          → exceeded (add_usage s.tracker resp.usage) ≡ true
          → Q (finish world name (i + 1) "" token_budget (spend resp s), some token_budget_exceeded)
      pub on_complete :
          (resp : CompletionResponse)
          → exceeded (add_usage s.tracker resp.usage) ≡ false
          → Q (finish world name (i + 1) resp.content complete (spend resp s), none)
      pub on_loop :
          (resp : CompletionResponse)
          → exceeded (add_usage s.tracker resp.usage) ≡ false
          → (d : LoopDetector)
          → record_calls world.json_normal resp.tool_calls s.detector ≡ (d, true)
          → Q (
            finish world name (i + 1) "" loop_detected (record (spend resp s) { detector = d }),
            some loop_found,
          )
      pub on_tools :
          (resp : CompletionResponse)
          → exceeded (add_usage s.tracker resp.usage) ≡ false
          → (d : LoopDetector)
          → record_calls world.json_normal resp.tool_calls s.detector ≡ (d, false)
          → P (act world resp (record (spend resp s) { detector = d }))

    module _ (c : Cases) where
      call_tools-Holds :
          (resp : CompletionResponse)
          → exceeded (add_usage s.tracker resp.usage) ≡ false
          → (o : LoopDetector × Bool)
          → record_calls world.json_normal resp.tool_calls s.detector ≡ o
          → Holds P Q (call_tools world name i resp (spend resp s))
      unfolding call_tools
      call_tools-Holds resp e (d, true) h = rw (h, call_tools) (c.on_loop resp e d h)
      call_tools-Holds resp e (d, false) h = rw (h, call_tools) (c.on_tools resp e d h)

      reply-Holds :
          (resp : CompletionResponse) (tcs : List ToolCall)
          → resp.tool_calls ≡ tcs
          → exceeded (add_usage s.tracker resp.usage) ≡ false
          → Holds P Q (answer world name i resp s)
      unfolding answer
      reply-Holds resp [] h e = rw (e, answer) (rw h (c.on_complete resp e))
      reply-Holds resp (tc ∷ tcs) h e =
          rw (e, answer)
            (rw h (
              call_tools-Holds resp e (record_calls world.json_normal resp.tool_calls s.detector)
                refl))

      answer-Holds : (resp : CompletionResponse) → Holds P Q (answer world name i resp s)
      unfolding answer
      answer-Holds resp = elim (Bool-cases (exceeded (add_usage s.tracker resp.usage))) [
        | inl e ↦ rw (e, answer) (c.on_budget resp e)
        | inr e ↦ reply-Holds resp resp.tool_calls refl e
      ]

      provider-Holds :
          (o : Completion)
          → world.provider i s.messages ≡ o
          → world.context i ≡ live
          → Holds P Q (round world name i s)
      unfolding round
      provider-Holds (completed resp) e h = rw (h, round) (rw e (answer-Holds resp))
      provider-Holds (completion_failed x) e h = rw (h, round) (rw e (c.on_failure x))

      pub round-Holds : (k : Context) → world.context i ≡ k → Holds P Q (round world name i s)
      unfolding round
      round-Holds live h = provider-Holds (world.provider i s.messages) refl h
      round-Holds done h = rw (h, round) (c.on_context (λ e. done≢live (sym h ∙ e)))
      round-Holds past_deadline h =
          rw (h, round) (c.on_context (λ e. past_deadline≢live (sym h ∙ e)))

module _ (world : World) (name : String) (P : LoopState → Type 0) (Q : Out → Type 0) where
  after :
      (rounds i : ℕ) (s : LoopState) (o : Turn)
      → round world name i s ≡ o
      → Holds P Q o
      → ((t : LoopState) → P t → Q (run_from world name rounds (i + 1) t))
      → Q (run_from world name (suc rounds) i s)
  unfolding run_from
  after rounds i s (inl t) h p next = rw (h, run_from) (next t p)
  after rounds i s (inr out) h q next = rw (h, run_from) q

-- What holds of the variables before each iteration, and at last of what Run returns.
module _ (world : World) (name : String) (n : ℕ) (P : ℕ → LoopState → Type 0) (Q : Out → Type 0)
    (step : (i : ℕ) (s : LoopState) → i < n → P i s → Cases world name (P (i + 1)) Q i s)
    (over : (s : LoopState)
      → P n s
      → Q (finish world name n "" max_iterations s, some max_iterations_reached)) where
  pub run_from-keeps :
      (rounds i : ℕ) (s : LoopState) → i + rounds ≡ n → P i s → Q (run_from world name rounds i s)
  unfolding run_from
  run_from-keeps zero i s e p =
      let e' : i ≡ n = omega arith in
      subst (λ k. Q (finish world name k "" max_iterations s, some max_iterations_reached)) (sym e')
        (over s (subst (λ k. P k s) e' p))
  run_from-keeps (suc rounds) i s e p =
      after world name (P (i + 1)) Q rounds i s (round world name i s) refl
        (round-Holds world name (P (i + 1)) Q i s (step i s (omega arith) p) (world.context i) refl)
        (λ t q. run_from-keeps rounds (i + 1) t (omega arith) q)

-- ===== src/Hook/Runs.antt =====
-- internal/hook/pipeline.go: which hooks run, and the action that results.
use sclaw.Prelude.{
  ◌≡◌, refl, ap, ◌∙◌, ◌⊎◌, inl, inr, Bool, true, false, ◌||◌, List, [], ◌∷◌, ◌++◌, if◌then◌else◌,
  arith, Bool-cases,
}
use sclaw.Hook.{
  Action, continue, drop, modify, is_drop, is_modify, before_process, before_send, after_send, Hook,
  Pipeline, run_until_drop, run_before_process, run_all, action_of, run_before_send, run_after_send,
}

module _ {H W : Type 0} (hook : Hook H W) where
  -- The state after some hooks have run, each in the state that the one before it left.
  abbrev pub after_all : List H → W → W
  after_all [] w = w
  after_all (h ∷ hs) w = after_all hs (hook.execute h w).1

  -- None of these hooks, so run, asks to drop the message.
  abbrev pub Passes : List H → W → Type 0
  Passes [] w = Unit
  Passes (h ∷ hs) w = (is_drop (hook.execute h w).0 ≡ false) × Passes hs (hook.execute h w).1

  -- One of these hooks, so run, signals that it modified the message.
  abbrev pub modifies : List H → W → Bool
  modifies [] w = false
  modifies (h ∷ hs) w = is_modify (hook.execute h w).0 || modifies hs (hook.execute h w).1

  -- How RunBeforeProcess ends: all hooks have run, or the first that drops the message was the last.
  abbrev pub Ended : List H → W → Action × W → Type 0
  Ended hs w r =
      (Passes hs w × (r ≡ (continue, after_all hs w)))
      ⊎ ((good : List H) × (h : H) × (post : List H) × (hs ≡ good ++ h ∷ post)
          × Passes good w
          × (is_drop (hook.execute h (after_all good w)).0 ≡ true)
          × (r ≡ (drop, (hook.execute h (after_all good w)).1)))

  run_until_drop-Ended : (hs : List H) (w : W) → Ended hs w (run_until_drop hook hs w)
  unfolding run_until_drop
  run_until_drop-Ended [] w = inl (tt, refl)
  run_until_drop-Ended (h ∷ hs) w = elim (Bool-cases (is_drop (hook.execute h w).0)) [
    | inl b ↦ rw (b, run_until_drop) (inr ([], h, hs, refl, tt, b, refl))
    | inr b ↦
        rw (b, run_until_drop)
          (elim (run_until_drop-Ended hs (hook.execute h w).1) [
            | inl (p, e) ↦ inl ((refl, p), e)
            | inr (good, k, post, split, p, d, e) ↦
                inr (h ∷ good, k, post, ap (λ r. h ∷ r) split, (b, p), d, e)
          ])
  ]

  run_all-state :
      (m : Bool) (hs : List H) (w : W) → run_all hook m hs w ≡ (m || modifies hs w, after_all hs w)
  unfolding run_all
  run_all-state m [] w = ground arith
  run_all-state m (h ∷ hs) w =
      run_all-state (m || is_modify (hook.execute h w).0) hs (hook.execute h w).1 ∙ ground arith

  -- RunBeforeProcess runs the hooks of its position in order up to the first that drops the message,
  -- and then no other; without one it runs all and continues. RunBeforeSend and RunAfterSend run all
  -- of theirs in order, whatever they return; the first of the two reports a modification exactly if
  -- some hook signals one.
  pub runs_in_order :
      (p : Pipeline H) (w : W)
      → Ended (p.hooks before_process) w (run_before_process hook p w)
        × (run_before_send hook p w ≡ (
          if modifies (p.hooks before_send) w then modify else continue,
          after_all (p.hooks before_send) w,
        ))
        × (run_after_send hook p w ≡ after_all (p.hooks after_send) w)
  unfolding run_before_process run_before_send run_after_send action_of
  runs_in_order p w = (
    run_until_drop-Ended (p.hooks before_process) w,
    ap (action_of hook) (run_all-state false (p.hooks before_send) w),
    ap (λ (r : Bool × W). r.1) (run_all-state false (p.hooks after_send) w),
  )

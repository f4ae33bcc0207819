-- ===== src/Hook.antt =====
-- internal/hook/pipeline.go: the hooks of a message, by position and priority. What a hook does is a
-- function of the state that the hooks share; its error is logged and dropped, so it is left out.
pub mod Priorities
pub mod Order
pub mod Runs
use sclaw.Prelude.{
  ℕ, zero, suc, ◌+◌, ◌-◌, ◌%◌, is_yes, Bool, true, false, ◌&&◌, ◌||◌, List, [], ◌∷◌, ◌++◌, ltb, leb,
  ◌==◌, if◌then◌else◌, ℤ, pos, negsuc,
}

-- Position
pub data Position : Type 0 where
  before_process before_send after_send : Position

-- Action
pub data Action : Type 0 where
  continue drop modify : Action

abbrev pub same_position : Position → Position → Bool
same_position before_process before_process = true
same_position before_send before_send = true
same_position after_send after_send = true
same_position _ _ = false

-- Hook: the methods of the hooks, which are compared by identity.
pub record Hook (H W : Type 0) : Type 0 where
  pub position : H → Position
  pub priority : H → ℤ
  pub execute : H → W → Action × W

-- Pipeline; a hook without an entry in `order` has 0.
pub record Pipeline (H : Type 0) : Type 0 where
  pub hooks : Position → List H
  pub order : H → ℕ
  pub seq : ℕ

-- NewPipeline
abbrev pub new_pipeline : {H : Type 0} → Pipeline H
new_pipeline = record { hooks = λ p. []; order = λ h. 0; seq = 0 }

abbrev pub eqz : ℤ → ℤ → Bool
eqz (pos m) (pos n) = m == n
eqz (pos m) (negsuc n) = false
eqz (negsuc m) (pos n) = false
eqz (negsuc m) (negsuc n) = m == n

-- The 64 bits of an int.
abbrev pub word : ℤ → ℕ
word (pos n) = n % 18446744073709551616
word (negsuc n) = 18446744073709551615 - n % 18446744073709551616

-- `a - b < 0` on ints: the difference wraps, and its highest bit is its sign.
abbrev pub difference_is_negative : ℤ → ℤ → Bool
difference_is_negative a b =
    leb 9223372036854775808 ((word a + (18446744073709551616 - word b)) % 18446744073709551616)

abbrev pub is_drop : Action → Bool
is_drop drop = true
is_drop _ = false

abbrev pub is_modify : Action → Bool
is_modify modify = true
is_modify _ = false

module _ {H W : Type 0} (hook : Hook H W) where
  -- The comparison of the sort is negative: by priority, then by the order of registration.
  abbrev pub precedes : (H → ℕ) → H → H → Bool
  precedes order a b =
      if eqz (hook.priority a) (hook.priority b)
      then ltb (order a) (order b)
      else difference_is_negative (hook.priority a) (hook.priority b)

  -- Where a stable sort puts a new last hook in a sorted list.
  unfoldable pub insert_hook : (H → ℕ) → H → List H → List H
  insert_hook order h [] = h ∷ []
  insert_hook order h (k ∷ ks) =
      let rest = insert_hook order h ks in if precedes order h k then h ∷ k ∷ ks else k ∷ rest

  sort_onto : (H → ℕ) → List H → List H → List H
  unfolding insert_hook
  sort_onto order sorted [] = sorted
  sort_onto order sorted (h ∷ hs) = sort_onto order (insert_hook order h sorted) hs

  -- slices.SortStableFunc: the one stable arrangement, wherever the comparison is an order.
  unfoldable pub sort_stable : (H → ℕ) → List H → List H
  unfolding sort_onto
  sort_stable order hs = sort_onto order [] hs

  -- `p.order[h] = p.seq`, also of a hook that has been registered before.
  abbrev pub ranked : Discrete H → H → Pipeline H → H → ℕ
  ranked dec h p k = if is_yes (dec k h) then p.seq else p.order k

  -- Register
  unfoldable pub register : Discrete H → H → Pipeline H → Pipeline H
  unfolding sort_stable
  register dec h p = record {
    hooks = λ position.
        if same_position position (hook.position h)
        then sort_stable (ranked dec h p) (p.hooks position ++ h ∷ [])
        else p.hooks position;
    order = ranked dec h p;
    seq = p.seq + 1;
  }

  -- The loop of RunBeforeProcess.
  unfoldable pub run_until_drop : List H → W → Action × W
  run_until_drop [] w = (continue, w)
  run_until_drop (h ∷ hs) w =
      let (action, v) = hook.execute h w in
      let rest = run_until_drop hs v in if is_drop action then (drop, v) else rest

  -- RunBeforeProcess
  unfoldable pub run_before_process : Pipeline H → W → Action × W
  unfolding run_until_drop
  run_before_process p w = run_until_drop (p.hooks before_process) w

  -- The loop of RunBeforeSend.
  unfoldable pub run_all : Bool → List H → W → Bool × W
  run_all modified [] w = (modified, w)
  run_all modified (h ∷ hs) w =
      let (action, v) = hook.execute h w in run_all (modified || is_modify action) hs v

  action_of : Bool × W → Action × W
  action_of (modified, w) = (if modified then modify else continue, w)

  -- RunBeforeSend
  unfoldable pub run_before_send : Pipeline H → W → Action × W
  unfolding run_all action_of
  run_before_send p w = action_of (run_all false (p.hooks before_send) w)

  -- RunAfterSend
  unfoldable pub run_after_send : Pipeline H → W → W
  unfolding run_all
  run_after_send p w = (run_all false (p.hooks after_send) w).1

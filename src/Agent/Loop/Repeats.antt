-- ===== src/Agent/Loop/Repeats.antt =====
-- internal/agent/loop.go with guards.go: how often one call can be repeated.
use sclaw.Prelude.{
  inl, inr, ◌∙◌, ℕ, ℤ, ◌+◌, ◌<◌, String, Bool, true, false, Option, List, [], ◌∷◌, ◌++◌, ◌≡◌, ◌≢◌,
  ap, sym, subst, refl, leb, arith, Bool-cases, positive_or, String-discrete, is_yes, if◌then◌else◌,
}
use sclaw.Prelude.Dict.{Dict, lookup, insert, lookup-insert_self, lookup-insert_ne}
use sclaw.Provider.Types.{ToolCall, CompletionResponse}
use sclaw.Agent.Guards.{LoopDetector, call_key, record_key, count_of}
use sclaw.Agent.Executor.{Outcome, ToolCallRecord, execute_single, execute_all}
use sclaw.Agent.Loop.{
  World, LoopConfig, Request, LoopState, finish, act, start, with_defaults, run, record_calls,
}
use sclaw.Agent.Loop.Turns.{spend, run_from-keeps}

-- The calls of a list with a given key.
abbrev key_calls : (String → Option String) → String → List ToolCall → ℕ
key_calls json_normal key [] = 0
key_calls json_normal key (tc ∷ calls) =
    (if is_yes (String-discrete key (call_key json_normal tc)) then 1 else 0)
    + key_calls json_normal key calls

-- The call that a record is of.
abbrev pub call_of : ToolCallRecord → ToolCall
call_of r = record { id = r.id; name = r.name; arguments = r.arguments }

-- The records whose call has a given key: the tool's name and its normalized arguments.
abbrev pub times_executed : (String → Option String) → String → List ToolCallRecord → ℕ
times_executed json_normal key [] = 0
times_executed json_normal key (r ∷ records) =
    (if is_yes (String-discrete key (call_key json_normal (call_of r))) then 1 else 0)
    + times_executed json_normal key records

times_executed-append :
    (j : String → Option String) (key : String) (xs ys : List ToolCallRecord)
    → times_executed j key (xs ++ ys) ≡ times_executed j key xs + times_executed j key ys
times_executed-append j key [] ys = omega arith
times_executed-append j key (x ∷ xs) ys = omega (arith, times_executed-append j key xs ys)

times_executed-execute_all :
    (j : String → Option String) (key : String) (execute : ToolCall → Outcome)
    (calls : List ToolCall)
    → times_executed j key (execute_all execute calls) ≡ key_calls j key calls
unfolding execute_all execute_single
times_executed-execute_all j key execute [] = refl
times_executed-execute_all j key execute (tc ∷ calls) =
    ap (◌+◌ (if is_yes (String-discrete key (call_key j tc)) then 1 else 0))
      (times_executed-execute_all j key execute calls)

count_of-insert_self :
    (key : String) (n : ℕ) (m : Dict String ℕ) → count_of key (insert String-discrete key n m) ≡ n
unfolding count_of
count_of-insert_self key n m = rw (lookup-insert_self String-discrete key n m, count_of) refl

count_of-insert_ne :
    (key other : String) (n : ℕ) (m : Dict String ℕ)
    → other ≢ key
    → count_of other (insert String-discrete key n m) ≡ count_of other m
unfolding count_of
count_of-insert_ne key other n m h =
    rw (lookup-insert_ne String-discrete key other n m h, count_of) refl

Below : LoopDetector → Type 0
Below d = (key : String) → count_of key d.counts < d.threshold

count_of-record_key :
    (d : LoopDetector) (k key : String)
    → count_of key (record_key d k).0.counts
      ≡ count_of key d.counts + (if is_yes (String-discrete key k) then 1 else 0)
unfolding record_key
count_of-record_key d k key = go (String-discrete key k)
  where
    go :
        (x : Dec (key ≡ k))
        → count_of key (insert String-discrete k (count_of k d.counts + 1) d.counts)
          ≡ count_of key d.counts + (if is_yes x then 1 else 0)
    go (yes p) =
        let e : count_of k d.counts + 1 ≡ count_of key d.counts + 1 =
          ap (λ s. count_of s d.counts + 1) (sym p) in
        ap (λ s. count_of s (insert String-discrete k (count_of k d.counts + 1) d.counts)) p
        ∙ count_of-insert_self k (count_of k d.counts + 1) d.counts
        ∙ e
    go (no p) = omega (arith, count_of-insert_ne k key (count_of k d.counts + 1) d.counts p)

record_key-Below :
    (d : LoopDetector) (k : String)
    → (record_key d k).1 ≡ false
    → Below d
    → Below (record_key d k).0
unfolding record_key Below
record_key-Below d k e b key = elim (String-discrete key k) [
  | yes p ↦
      let at_key : count_of key (insert String-discrete k (count_of k d.counts + 1) d.counts)
          ≡ count_of k (insert String-discrete k (count_of k d.counts + 1) d.counts) =
        ap (λ s. count_of s (insert String-discrete k (count_of k d.counts + 1) d.counts)) p in
      rw at_key (leb-lt e)
  | no p ↦ rw (count_of-insert_ne k key (count_of k d.counts + 1) d.counts p) (b key)
]
  where
    leb-lt : {m n : ℕ} → leb m n ≡ false → n < m
    leb-lt h = ground arith

record_calls_lem :
    (j : String → Option String) (calls : List ToolCall) (d d' : LoopDetector)
    → record_calls j calls d ≡ (d', false)
    → Below d
    → Below d'
      × ((key : String) → count_of key d'.counts ≡ count_of key d.counts + key_calls j key calls)
unfolding record_calls
record_calls_lem j [] d d' e b =
    let p : d ≡ d' = cc in
    (subst Below p b, λ key. ap (λ (x : LoopDetector). count_of key x.counts) (sym p) ∙ omega arith)
record_calls_lem j (tc ∷ calls) d d' e b = elim (Bool-cases (record_key d (call_key j tc)).1) [
  | inl f ↦ absurd (stops f e)
  | inr f ↦
      let rest =
        record_calls_lem j calls (record_key d (call_key j tc)).0 d' (goes f e)
          (record_key-Below d (call_key j tc) f b) in
      (rest.0, λ key. omega (arith, rest.1 key, count_of-record_key d (call_key j tc) key))
]
  where
    stops :
        (record_key d (call_key j tc)).1 ≡ true → record_calls j (tc ∷ calls) d ≡ (d', false) → ⊥
    stops f e = ground arith

    goes :
        (record_key d (call_key j tc)).1 ≡ false
        → record_calls j (tc ∷ calls) d ≡ (d', false)
        → record_calls j calls (record_key d (call_key j tc)).0 ≡ (d', false)
    goes f e = ground arith

Fewer : (String → Option String) → ℕ → LoopState → Type 0
Fewer j threshold s =
    (s.detector.threshold ≡ threshold)
    × Below s.detector
    × ((key : String) → count_of key s.detector.counts ≡ times_executed j key s.tool_calls)

threshold-record_calls :
    (j : String → Option String) (calls : List ToolCall) (d : LoopDetector)
    → (record_calls j calls d).0.threshold ≡ d.threshold
unfolding record_calls record_key
threshold-record_calls j [] d = refl
threshold-record_calls j (tc ∷ calls) d =
    ground (arith, threshold-record_calls j calls (record_key d (call_key j tc)).0)

act-Fewer :
    (world : World) (threshold : ℕ) (resp : CompletionResponse) (s : LoopState) (d : LoopDetector)
    → record_calls world.json_normal resp.tool_calls s.detector ≡ (d, false)
    → Fewer world.json_normal threshold s
    → Fewer world.json_normal threshold (act world resp (record (spend resp s) { detector = d }))
unfolding act Fewer
act-Fewer world threshold resp s d e (t, b, c) = (
  ap (λ (o : LoopDetector × Bool). o.0.threshold) (sym e)
      ∙ threshold-record_calls j resp.tool_calls s.detector
      ∙ t,
  (record_calls_lem j resp.tool_calls s.detector d e b).0,
  λ key. omega (
    arith,
    c key,
    (record_calls_lem j resp.tool_calls s.detector d e b).1 key,
    times_executed-append j key s.tool_calls (execute_all world.execute resp.tool_calls),
    times_executed-execute_all j key world.execute resp.tool_calls,
  ),
)
  where
    j : String → Option String
    j = world.json_normal

Rare : (String → Option String) → ℕ → List ToolCallRecord → Type 0
Rare j threshold records = (key : String) → times_executed j key records < threshold

Fewer-Rare :
    (j : String → Option String) (threshold : ℕ) (s : LoopState)
    → Fewer j threshold s
    → Rare j threshold s.tool_calls
unfolding Fewer Rare Below
Fewer-Rare j threshold s (t, b, c) key = omega (arith, t, b key, c key)

-- Whatever the model asks for, no call of a tool, the same name and the same arguments up to their
-- JSON form, is executed as often as the loop threshold in one run: of all the records that a run
-- returns, fewer than the threshold are of one call.
pub run-Rare :
    (world : World) (cfg : LoopConfig) (req : Request) (key : String)
    → times_executed world.json_normal key (run world cfg req).0.tool_calls
      < positive_or cfg.loop_threshold 3
unfolding run finish with_defaults start Rare Fewer Below count_of lookup
run-Rare world cfg req =
    run_from-keeps world cfg.provider_name n (λ i s. Fewer j m s) (λ out. Rare j m out.0.tool_calls)
      (λ i s l p. record {
        on_context = λ g. Fewer-Rare j m s p;
        on_failure = λ e. Fewer-Rare j m s p;
        on_budget = λ resp e. Fewer-Rare j m s p;
        on_complete = λ resp e. Fewer-Rare j m s p;
        on_loop = λ resp e d f. Fewer-Rare j m s p;
        on_tools = λ resp e d f. act-Fewer world m resp s d f p;
      })
      (λ s p. Fewer-Rare j m s p) n 0 (start (with_defaults cfg) req) (omega arith)
      (refl, λ key. positive_or-lt cfg.loop_threshold, λ key. refl)
  where
    n : ℕ
    n = positive_or cfg.max_iterations 10

    m : ℕ
    m = positive_or cfg.loop_threshold 3

    j : String → Option String
    j = world.json_normal

    positive_or-lt : (z : ℤ) → 0 < positive_or z 3
    positive_or-lt z = ground arith

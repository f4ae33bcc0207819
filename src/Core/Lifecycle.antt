-- ===== src/Core/Lifecycle.antt =====
-- internal/core/core.go: the order of starts and stops.
use mathlib.Core.List.{append-nil, append_assoc}
use sclaw.Prelude.{
  ◌≡◌, refl, sym, ap, ◌∙◌, subst, String, true, false, Option, none, some, List, [], ◌∷◌, ◌++◌, All,
  arith, ◌⊎◌, inl, inr,
}
use sclaw.Core.{
  ModuleInstance, Event, start_called, App, stop_events, marked, stop_modules, stopped, stop,
  start_from, started_app, start,
}

-- The calls of Start, in order, while no module fails.
abbrev pub starts_of : List ModuleInstance → List Event
starts_of [] = []
starts_of (m ∷ ms) =
    elim m.handle.starter [ none ↦ [] | some r ↦ start_called m.id ∷ [] ] ++ starts_of ms

-- The calls of Stop after these starts: the modules that have both methods, last first.
abbrev pub stops_of : List ModuleInstance → List Event
stops_of [] = []
stops_of (m ∷ ms) = stops_of ms ++ elim m.handle.starter [ none ↦ [] | some r ↦ stop_events m ]

abbrev pub Unstarted : ModuleInstance → Type 0
Unstarted m = m.started ≡ false

abbrev pub StartsWell : ModuleInstance → Type 0
StartsWell m = (m.handle.starter ≡ none) ⊎ (m.handle.starter ≡ some none)

-- A module once Start has come by: a Starter is marked.
abbrev pub after_start : ModuleInstance → ModuleInstance
after_start m = elim m.handle.starter [ none ↦ m | some r ↦ marked true m ]

abbrev pub all_after_start : List ModuleInstance → List ModuleInstance
all_after_start [] = []
all_after_start (m ∷ ms) = after_start m ∷ all_after_start ms

all_after_start-append :
    (xs ys : List ModuleInstance)
    → all_after_start (xs ++ ys) ≡ all_after_start xs ++ all_after_start ys
all_after_start-append [] ys = refl
all_after_start-append (x ∷ xs) ys = ap (λ r. after_start x ∷ r) (all_after_start-append xs ys)

restored : (m : ModuleInstance) → Unstarted m → marked false m ≡ m
restored m h = ap (λ b. record m { started = b }) (sym h)

-- Stopping the modules that Start has marked: each is as before, and those with both methods are
-- called.
stop_modules-all_after_start :
    (ms : List ModuleInstance)
    → All Unstarted ms
    → stop_modules (all_after_start ms) ≡ (ms, stops_of ms)
unfolding stop_modules
stop_modules-all_after_start [] h = refl
stop_modules-all_after_start (m ∷ ms) h =
    ground
      (arith, stop_modules-all_after_start ms h.1, h.0, append-nil (stops_of ms), restored m h.0)

start_from-good :
    (done good : List ModuleInstance)
    → All StartsWell good
    → start_from done good ≡ ((done ++ all_after_start good, starts_of good), none)
unfolding start_from
start_from-good done [] h =
    ap (λ (x : List ModuleInstance). ((x, []), none)) (sym (append-nil done))
start_from-good done (m ∷ good) h = ground (
  arith,
  h.0,
  start_from-good (done ++ m ∷ []) good h.1,
  start_from-good (done ++ marked true m ∷ []) good h.1,
  append_assoc done (m ∷ []) (all_after_start good),
  append_assoc done (marked true m ∷ []) (all_after_start good),
)

start_from-bad :
    (done good : List ModuleInstance) (bad : ModuleInstance) (post : List ModuleInstance)
    (e : String)
    → All StartsWell good
    → bad.handle.starter ≡ some (some e)
    → start_from done (good ++ bad ∷ post) ≡ (
      (
        (stop_modules (done ++ all_after_start good)).0 ++ bad ∷ post,
        starts_of (good ++ bad ∷ []) ++ (stop_modules (done ++ all_after_start good)).1,
      ),
      some e,
    )
unfolding start_from
start_from-bad done [] bad post e h b = ground (arith, b, append-nil done)
start_from-bad done (m ∷ good) bad post e h b = ground (
  arith,
  h.0,
  start_from-bad (done ++ m ∷ []) good bad post e h.1 b,
  start_from-bad (done ++ marked true m ∷ []) good bad post e h.1 b,
  append_assoc done (m ∷ []) (all_after_start good),
  append_assoc done (marked true m ∷ []) (all_after_start good),
)

-- All modules start, or there is a first that does not.
abbrev pub Failing : List ModuleInstance → Type 0
Failing ms =
    (good : List ModuleInstance) × (bad : ModuleInstance) × (post : List ModuleInstance)
    × (e : String) × (ms ≡ good ++ bad ∷ post)
    × All StartsWell good
    × (bad.handle.starter ≡ some (some e))

starts-cases : (ms : List ModuleInstance) → All StartsWell ms ⊎ Failing ms
starts-cases [] = inl tt
starts-cases (m ∷ ms) = by_start m.handle.starter refl (starts-cases ms)
  where
    by_start :
        (o : Option (Option String))
        → m.handle.starter ≡ o
        → All StartsWell ms ⊎ Failing ms
        → All StartsWell (m ∷ ms) ⊎ Failing (m ∷ ms)
    by_start (some (some e)) is rest = inr ([], m, ms, e, refl, tt, is)
    by_start none is (inl h) = inl (inl is, h)
    by_start (some none) is (inl h) = inl (inr is, h)
    by_start none is (inr (good, bad, post, e, split, h, b)) =
        inr (m ∷ good, bad, post, e, ap (λ r. m ∷ r) split, (inl is, h), b)
    by_start (some none) is (inr (good, bad, post, e, split, h, b)) =
        inr (m ∷ good, bad, post, e, ap (λ r. m ∷ r) split, (inr is, h), b)

All-left : (xs ys : List ModuleInstance) → All Unstarted (xs ++ ys) → All Unstarted xs
All-left [] ys h = tt
All-left (x ∷ xs) ys h = (h.0, All-left xs ys h.1)

start-good :
    (a : App)
    → All StartsWell a.modules
    → start a
      ≡ (record { modules = all_after_start a.modules; log = a.log ++ starts_of a.modules }, none)
unfolding start
start-good a h = unfold started_app stopped in (ap (started_app a) (start_from-good [] a.modules h))

stop-good :
    (a : App) (log : List Event)
    → All Unstarted a.modules
    → stop (record { modules = all_after_start a.modules; log = log })
      ≡ record { modules = a.modules; log = log ++ stops_of a.modules }
unfolding stop
stop-good a log u =
    unfold stopped in
    (ap (stopped (record { modules = []; log = log })) (stop_modules-all_after_start a.modules u))

rolled_back :
    (ms good : List ModuleInstance) (bad : ModuleInstance) (post : List ModuleInstance) (e : String)
    → ms ≡ good ++ bad ∷ post
    → All StartsWell good
    → bad.handle.starter ≡ some (some e)
    → All Unstarted good
    → start_from [] ms ≡ ((ms, starts_of (good ++ bad ∷ []) ++ stops_of good), some e)
unfolding start_from
rolled_back ms good bad post e split h b u =
    let stops : stop_modules (all_after_start good) ≡ (good, stops_of good) =
      stop_modules-all_after_start good u in
    cc (split, stops, start_from-bad [] good bad post e h b)

start-bad :
    (a : App) (good : List ModuleInstance) (bad : ModuleInstance) (post : List ModuleInstance)
    (e : String)
    → a.modules ≡ good ++ bad ∷ post
    → All StartsWell good
    → bad.handle.starter ≡ some (some e)
    → All Unstarted good
    → start a
      ≡ (record a { log = a.log ++ (starts_of (good ++ bad ∷ []) ++ stops_of good) }, some e)
unfolding start
start-bad a good bad post e split h b u =
    unfold started_app stopped in
    (ap (started_app a) (rolled_back a.modules good bad post e split h b u))

-- The Start of an application of which no module runs calls the starters in order. If all of them
-- succeed, a later Stop calls, last first, exactly the modules that have both methods, and leaves
-- no module running; a module that only has Stop is never stopped. If one fails, those started
-- before it that have Stop are stopped, last first, no later one is started, and no module is left
-- running.
pub start-cases :
    (a : App)
    → All Unstarted a.modules
    → (All StartsWell a.modules
        × (start a ≡ (
          record { modules = all_after_start a.modules; log = a.log ++ starts_of a.modules },
          none,
        ))
        × (stop (start a).0 ≡ record {
          modules = a.modules;
          log = (a.log ++ starts_of a.modules) ++ stops_of a.modules;
        }))
      ⊎ ((good : List ModuleInstance) × (bad : ModuleInstance) × (post : List ModuleInstance)
          × (e : String) × (a.modules ≡ good ++ bad ∷ post)
          × All StartsWell good
          × (bad.handle.starter ≡ some (some e))
          × (start a ≡ (
            record a { log = a.log ++ (starts_of (good ++ bad ∷ []) ++ stops_of good) },
            some e,
          )))
start-cases a u = elim (starts-cases a.modules) [
  | inl h ↦
      let run = start-good a h in
      inl (
        h,
        run,
        ap (λ (r : App × Option String). stop r.0) run
            ∙ stop-good a (a.log ++ starts_of a.modules) u,
      )
  | inr (good, bad, post, e, split, h, b) ↦ inr (
    good,
    bad,
    post,
    e,
    split,
    h,
    b,
    start-bad a good bad post e split h b
        (All-left good (bad ∷ post) (subst (λ ms. All Unstarted ms) split u)),
  )
]

-- ===== src/Core.antt =====
-- internal/core/core.go: the life of the modules. What the methods of a module return is a part of
-- the model's module; the calls that the program makes are logged. The timeout of a shutdown acts
-- through the context, which the modules read.
pub mod Lifecycle
pub mod Registry
use sclaw.Prelude.{
  ℕ, String, Bool, true, false, ◌&&◌, Option, none, some, List, [], ◌∷◌, ◌++◌, ◌⊎◌, inl, inr,
  if◌then◌else◌, is_yes, String-discrete,
}

-- A Module: what Start returns, if it is a Starter (an error or none); whether it is a Stopper, and
-- what Stop returns; what Reload returns, if it is a Reloader.
pub record Module : Type 0 where
  pub starter : Option (Option String)
  pub stopper : Option (Option String)
  pub reloader : Option (Option String)

-- moduleInstance
pub record ModuleInstance : Type 0 where
  pub id : String
  pub handle : Module
  pub started : Bool

pub data Event : Type 0 where
  start_called stop_called reload_called : String → Event

-- App, with the log of its calls.
pub record App : Type 0 where
  pub modules : List ModuleInstance
  pub log : List Event

-- NewApp
abbrev pub new_app : App
new_app = record { modules = []; log = [] }

find_module : String → List ModuleInstance → Option Module
find_module id [] = none
find_module id (m ∷ ms) =
    let rest = find_module id ms in if is_yes (String-discrete m.id id) then some m.handle else rest

-- Module
unfoldable pub get_module : String → App → Option Module
unfolding find_module
get_module id a = find_module id a.modules

-- AppendModule
unfoldable pub append_module : String → Module → App → App
append_module id handle a = record a {
  modules = a.modules ++ record { id = id; handle = handle; started = false } ∷ [];
}

-- What one module logs when it is stopped: only a Stopper is called.
abbrev pub stop_events : ModuleInstance → List Event
stop_events m = elim m.handle.stopper [ none ↦ [] | some result ↦ stop_called m.id ∷ [] ]

abbrev pub marked : Bool → ModuleInstance → ModuleInstance
marked b m = record m { started = b }

-- stopModules, from the last of the modules it is given: the modules after it, and what it logs.
unfoldable pub stop_modules : List ModuleInstance → List ModuleInstance × List Event
stop_modules [] = ([], [])
stop_modules (m ∷ ms) =
    let (rest, log) = stop_modules ms in
    if m.started then (marked false m ∷ rest, log ++ stop_events m) else (m ∷ rest, log)

stopped : App → List ModuleInstance × List Event → App
stopped a (ms, log) = record { modules = ms; log = a.log ++ log }

-- Stop
unfoldable pub stop : App → App
unfolding stop_modules stopped
stop a = stopped a (stop_modules a.modules)

-- The loop of Start; `done` are the modules before, and the result is the error.
unfoldable pub start_from :
    List ModuleInstance → List ModuleInstance → (List ModuleInstance × List Event) × Option String
unfolding stop_modules
start_from done [] = ((done, []), none)
start_from done (m ∷ ms) = elim m.handle.starter [
  | none ↦ start_from (done ++ m ∷ []) ms
  | some none ↦
      let ((all, log), e) = start_from (done ++ marked true m ∷ []) ms in
      ((all, start_called m.id ∷ log), e)
  | some (some error) ↦
      let (before, log) = stop_modules done in
      ((before ++ m ∷ ms, start_called m.id ∷ log), some error)
]

started_app : App → (List ModuleInstance × List Event) × Option String → App × Option String
started_app a (r, e) = (stopped a r, e)

-- Start
unfoldable pub start : App → App × Option String
unfolding start_from stopped started_app
start a = started_app a (start_from [] a.modules)

cleanup_events : List ModuleInstance → List Event
cleanup_events [] = []
cleanup_events (m ∷ ms) = cleanup_events ms ++ stop_events m

-- cleanup
unfoldable pub cleanup : App → App
unfolding cleanup_events
cleanup a = record { modules = []; log = a.log ++ cleanup_events a.modules }

-- LoadModules; `load` is LoadModule, with the id that the module gives itself.
unfoldable pub load_modules :
    (String → String ⊎ (String × Module)) → List String → App → App × Option String
unfolding cleanup append_module
load_modules load [] a = (a, none)
load_modules load (id ∷ ids) a = elim (load id) [
  | inl e ↦ (cleanup a, some e)
  | inr (own, handle) ↦ load_modules load ids (append_module own handle a)
]

-- ReloadModules: the calls, and the errors that are joined.
unfoldable pub reload_all : List ModuleInstance → List Event × List String
reload_all [] = ([], [])
reload_all (m ∷ ms) =
    let (log, errors) = reload_all ms in
    elim m.handle.reloader [
      | none ↦ (log, errors)
      | some none ↦ (reload_called m.id ∷ log, errors)
      | some (some e) ↦ (reload_called m.id ∷ log, e ∷ errors)
    ]

reloaded : App → List Event × List String → App × List String
reloaded a (log, errors) = (record a { log = a.log ++ log }, errors)

-- ReloadModules
unfoldable pub reload_modules : App → App × List String
unfolding reload_all reloaded
reload_modules a = reloaded a (reload_all a.modules)

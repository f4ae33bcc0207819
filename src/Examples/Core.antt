-- ===== src/Examples/Core.antt =====
-- Runs of internal/core/core.go.
use sclaw.Prelude.{String, ◌≡◌, refl, none, some, List, [], ◌∷◌, ◌++◌, ◌⊎◌, All, false}
use sclaw.Core.{
  Module, ModuleInstance, App, new_app, append_module, start, stop, start_called, stop_called,
}
use sclaw.Core.Lifecycle.{StartsWell, all_after_start, starts_of, stops_of, start-cases}

abbrev both : Module
both = record { starter = some none; stopper = some none; reloader = none }

-- A database: it has Stop, and no Start.
abbrev only_stop : Module
only_stop = record { starter = none; stopper = some none; reloader = none }

abbrev fails : Module
fails = record { starter = some (some "port in use"); stopper = some none; reloader = none }

abbrev app : App
app =
    append_module "gateway" both
      (append_module "memory.sqlite" only_stop (append_module "cron" both new_app))

-- The database is not stopped.
stop_run :
    (stop (start app).0).log
    ≡ start_called "cron" ∷ start_called "gateway" ∷ stop_called "gateway" ∷ stop_called "cron" ∷ []
unfolding start stop append_module
stop_run = refl

roll_back_run :
    (start (append_module "telegram" fails app)).0.log
    ≡ start_called "cron"
      ∷ start_called "gateway"
      ∷ start_called "telegram"
      ∷ stop_called "gateway"
      ∷ stop_called "cron"
      ∷ []
unfolding start append_module
roll_back_run = refl

start-cases_example :
    (All StartsWell app.modules
      × (start app ≡ (
        record { modules = all_after_start app.modules; log = app.log ++ starts_of app.modules },
        none,
      ))
      × (stop (start app).0 ≡ record {
        modules = app.modules;
        log = (app.log ++ starts_of app.modules) ++ stops_of app.modules;
      }))
    ⊎ ((good : List ModuleInstance) × (bad : ModuleInstance) × (post : List ModuleInstance)
        × (e : String) × (app.modules ≡ good ++ bad ∷ post)
        × All StartsWell good
        × (bad.handle.starter ≡ some (some e))
        × (start app ≡ (
          record app { log = app.log ++ (starts_of (good ++ bad ∷ []) ++ stops_of good) },
          some e,
        )))
start-cases_example = start-cases app started_none
  where
    started_none : All (λ (m : ModuleInstance). m.started ≡ false) app.modules
    started_none = unfold append_module in (refl, (refl, (refl, tt)))

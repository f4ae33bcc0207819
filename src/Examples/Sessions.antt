-- ===== src/Examples/Sessions.antt =====
-- Runs of internal/router/store.go and pruning.go.
use sclaw.Prelude.{◌≤◌, ◌≡◌, refl, String, some, List, [], ◌∷◌, ◌&&◌, arith, String-discrete}
use sclaw.Prelude.Dict.{IsMap, lookup, insert}
use sclaw.Router.Sessions.{
  same, SessionKey, SessionKey-discrete, Session, SessionStore, new_session, new_session_store,
  set_max_sessions, len, prune, prune_by_agent, is_idle, LazyPruner, new_lazy_pruner, Others,
  try_prune, get_or_create,
}
use sclaw.Router.Sessions.Bounds.{Call, creates, touches, prunes, perform_all, store-Sound}
use sclaw.Router.Lane.{
  Locks, acquire_enter, acquire_enters, here, next, new_lane_lock, enroll, ensure, goto, on_lane,
}
use sclaw.Router.Sessions.Pruning.{Removes, Reached, Tried, prune-exact, try_prune-cases}

abbrev key : String → SessionKey
key chat = record { channel = "telegram"; chat_id = chat; thread_id = "" }

abbrev calls : List Call
calls =
    creates "a" 3 (key "1")
    ∷ creates "b" 4 (key "2")
    ∷ touches 9 (key "1")
    ∷ creates "c" 9 (key "3")
    ∷ prunes 20 12
    ∷ []

store-Sound_example :
    let s = perform_all calls (set_max_sessions 2 new_session_store) in
    (len s ≤ 2)
    × IsMap SessionKey-discrete s.sessions
    × ((k : SessionKey) (x : Session)
        → lookup SessionKey-discrete k s.sessions ≡ some x
        → x.key ≡ k)
store-Sound_example = store-Sound 2 calls (omega arith)

-- Two sessions, last active at 3 and at 9.
abbrev store : SessionStore
store = record {
  sessions =
      record { key = key "1"; value = new_session "a" (key "1") 3 }
      ∷ record { key = key "2"; value = new_session "b" (key "2") 9 }
      ∷ [];
  max_sessions = 2;
}

store-IsMap : IsMap SessionKey-discrete store.sessions
unfolding lookup SessionKey-discrete String-discrete
store-IsMap = (refl, (refl, tt))

prune_run : (prune 20 12 store).1 ≡ 1
unfolding prune
prune_run = refl

prune-exact_example :
    Removes (is_idle 20 12) store (prune 20 12 store)
    × Removes
        (λ x. same x.agent_id "main" && is_idle 20 12 x)
        store
        (prune_by_agent 20 "main" 12 store)
prune-exact_example = prune-exact 20 12 "main" store store-IsMap

-- Somebody works on the session "1", and somebody else on "2".
abbrev lanes : Locks SessionKey
lanes =
    acquire_enter SessionKey-discrete 1 (key "2")
      (acquire_enter SessionKey-discrete 0 (key "1") (new_lane_lock 2))

lanes-Reached : Reached (some lanes)
unfolding new_lane_lock acquire_enter enroll ensure goto on_lane lookup insert SessionKey-discrete
    String-discrete
lanes-Reached =
    (2, next (next here (acquire_enters 0 (key "1") refl)) (acquire_enters 1 (key "2") refl))

abbrev pruner : LazyPruner
pruner = new_lazy_pruner store (some lanes) 300000000000

-- While TryPrune runs, the session "1" comes back after ActiveKeys.
abbrev comes_back : Others
comes_back (s, l) = ((get_or_create "c" 300000000006 (key "1") s).0, l)

abbrev nothing : Others
nothing x = x

try_prune_run : (try_prune 300000000005 nothing comes_back pruner).1 ≡ 1
unfolding try_prune prune
try_prune_run = refl

try_prune-cases_example : Tried 300000000005 nothing comes_back pruner
try_prune-cases_example =
    try_prune-cases 300000000005 nothing comes_back pruner store-IsMap lanes-Reached

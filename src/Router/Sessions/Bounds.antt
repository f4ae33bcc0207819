-- ===== src/Router/Sessions/Bounds.antt =====
-- internal/router/store.go: how many sessions the store holds.
use sclaw.Prelude.{
  ℕ, ◌+◌, ◌≤◌, ◌<◌, ◌≡◌, refl, sym, ap, ◌∙◌, inl, inr, String, Bool, Option, none, some, List, [],
  ◌∷◌, ◌&&◌, ltb, leb, if◌then◌else◌, length, arith, Bool-cases, Option-cases, subst,
}
use sclaw.Prelude.Dict.{
  Dict, lookup, insert, delete, length-insert_new, length-insert_old, length-delete-le,
  lookup-insert_self, lookup-insert_ne, lookup-delete_self, lookup-delete_ne, IsMap, insert-IsMap,
  delete-IsMap,
}
use sclaw.Router.Sessions.{
  same, SessionKey, SessionKey-discrete, Session, SessionStore, new_session_store, set_max_sessions,
  new_session, get_or_create, touch, delete_session, prune_where, pruned_store, prune,
  prune_by_agent, is_idle, len,
}

-- A call of a method that changes the sessions, with the clock and the random id that it meets.
pub data Call : Type 0 where
  creates : String → ℕ → SessionKey → Call
  touches : ℕ → SessionKey → Call
  deletes : SessionKey → Call
  prunes : ℕ → ℕ → Call
  prunes_agent : ℕ → String → ℕ → Call

unfoldable pub perform : Call → SessionStore → SessionStore
perform (creates id now key) s = (get_or_create id now key s).0
perform (touches now key) s = touch now key s
perform (deletes key) s = delete_session key s
perform (prunes now max_idle) s = (prune now max_idle s).0
perform (prunes_agent now agent_id max_idle) s = (prune_by_agent now agent_id max_idle s).0

unfoldable pub perform_all : List Call → SessionStore → SessionStore
unfolding perform
perform_all [] s = s
perform_all (c ∷ cs) s = perform_all cs (perform c s)

pub length-prune_where :
    (goes : Session → Bool) (m : Dict SessionKey Session)
    → length (prune_where goes m).0 + (prune_where goes m).1 ≡ length m
unfolding prune_where
length-prune_where goes [] = refl
length-prune_where goes (e ∷ m) = elim (Bool-cases (goes e.value)) [
  | inl b ↦ rw (b, prune_where) (omega (arith, length-prune_where goes m))
  | inr b ↦ rw (b, prune_where) (omega (arith, length-prune_where goes m))
]

-- What a pruning leaves at a key.
abbrev pub kept_unless : (Session → Bool) → Option Session → Option Session
kept_unless goes none = none
kept_unless goes (some x) = if goes x then none else some x

pub lookup-prune_where :
    (goes : Session → Bool) (k : SessionKey) (m : Dict SessionKey Session)
    → IsMap SessionKey-discrete m
    → lookup SessionKey-discrete k (prune_where goes m).0
      ≡ kept_unless goes (lookup SessionKey-discrete k m)
unfolding prune_where lookup
lookup-prune_where goes k [] h = refl
lookup-prune_where goes k (e ∷ m) h = ground (arith, lookup-prune_where goes k m h.1, elsewhere)
  where
    elsewhere : k ≡ e.key → lookup SessionKey-discrete k m ≡ none
    elsewhere q = ap (λ j. lookup SessionKey-discrete j m) q ∙ h.0

prune_where-IsMap :
    (goes : Session → Bool) (m : Dict SessionKey Session)
    → IsMap SessionKey-discrete m
    → IsMap SessionKey-discrete (prune_where goes m).0
unfolding prune_where
prune_where-IsMap goes [] h = tt
prune_where-IsMap goes (e ∷ m) h = elim (Bool-cases (goes e.value)) [
  | inl b ↦ rw (b, prune_where) (prune_where-IsMap goes m h.1)
  | inr b ↦
      rw (b, prune_where)
        (
          lookup-prune_where goes e.key m h.1 ∙ ap (kept_unless goes) h.0,
          prune_where-IsMap goes m h.1,
        )
]

-- The store is within its limit, if it has one; each session stands at its own key.
record Sound (limit : ℕ) (s : SessionStore) : Type 0 where
  limited : s.max_sessions ≡ limit
  bounded : 0 < limit → length s.sessions ≤ limit
  mapped : IsMap SessionKey-discrete s.sessions
  keyed :
      (k : SessionKey) (x : Session) → lookup SessionKey-discrete k s.sessions ≡ some x → x.key ≡ k

insert-keyed :
    (key : SessionKey) (v : Session) (m : Dict SessionKey Session)
    → v.key ≡ key
    → ((k : SessionKey) (x : Session) → lookup SessionKey-discrete k m ≡ some x → x.key ≡ k)
    → (k : SessionKey) (x : Session)
    → lookup SessionKey-discrete k (insert SessionKey-discrete key v m) ≡ some x
    → x.key ≡ k
insert-keyed key v m own old k x e = elim (SessionKey-discrete k key) [
  | no n ↦ old k x (sym (lookup-insert_ne SessionKey-discrete key k v m n) ∙ e)
  | yes q ↦
      let vx : v ≡ x = cc (lookup-insert_self SessionKey-discrete key v m, e, q) in
      ap (λ (y : Session). y.key) (sym vx) ∙ own ∙ sym q
]

get_or_create-Sound :
    (limit : ℕ) (id : String) (now : ℕ) (key : SessionKey) (s : SessionStore)
    → Sound limit s
    → Sound limit (get_or_create id now key s).0
unfolding get_or_create
get_or_create-Sound limit id now key s v =
    elim (Option-cases (lookup SessionKey-discrete key s.sessions)) [
      | inr (x, e) ↦ rw (e, get_or_create) v
      | inl e ↦ elim (Bool-cases (ltb 0 s.max_sessions && leb s.max_sessions (length s.sessions))) [
        | inl full ↦ rw (e, get_or_create) (rw (full, get_or_create) v)
        | inr free ↦
            rw (e, get_or_create)
              (rw (free, get_or_create)
                (record {
                  limited = v.limited;
                  bounded = λ h.
                      subst (λ n. n ≤ limit)
                        (sym (
                          length-insert_new SessionKey-discrete key (new_session id key now)
                            s.sessions e))
                        (ground (arith, free, v.limited, h));
                  mapped =
                      insert-IsMap SessionKey-discrete key (new_session id key now) s.sessions
                        v.mapped;
                  keyed = insert-keyed key (new_session id key now) s.sessions refl v.keyed;
                }))
      ]
    ]

touch-Sound :
    (limit now : ℕ) (key : SessionKey) (s : SessionStore)
    → Sound limit s
    → Sound limit (touch now key s)
unfolding touch
touch-Sound limit now key s v = elim (Option-cases (lookup SessionKey-discrete key s.sessions)) [
  | inl e ↦ rw (e, touch) v
  | inr (x, e) ↦
      rw (e, touch)
        (record {
          limited = v.limited;
          bounded = λ h.
              subst (λ n. n ≤ limit)
                (sym (
                  length-insert_old SessionKey-discrete key (record x { last_active_at = now }) x
                    s.sessions e))
                (v.bounded h);
          mapped =
              insert-IsMap SessionKey-discrete key (record x { last_active_at = now }) s.sessions
                v.mapped;
          keyed =
              insert-keyed key (record x { last_active_at = now }) s.sessions (v.keyed key x e)
                v.keyed;
        })
]

delete_session-Sound :
    (limit : ℕ) (key : SessionKey) (s : SessionStore)
    → Sound limit s
    → Sound limit (delete_session key s)
unfolding delete_session
delete_session-Sound limit key s v = record {
  limited = v.limited;
  bounded = λ h. omega (arith, v.bounded h, length-delete-le SessionKey-discrete key s.sessions);
  mapped = delete-IsMap SessionKey-discrete key s.sessions v.mapped;
  keyed = λ k x e. elim (SessionKey-discrete k key) [
    | no n ↦ v.keyed k x (sym (lookup-delete_ne SessionKey-discrete key k s.sessions n) ∙ e)
    | yes q ↦ absurd (gone k x q e)
  ];
}
  where
    gone :
        (k : SessionKey) (x : Session)
        → k ≡ key
        → lookup SessionKey-discrete k (delete SessionKey-discrete key s.sessions) ≡ some x
        → ⊥
    gone k x q e = cc (q, e, lookup-delete_self SessionKey-discrete key s.sessions)

prune-Sound :
    (limit : ℕ) (goes : Session → Bool) (s : SessionStore)
    → Sound limit s
    → Sound limit (record s { sessions = (prune_where goes s.sessions).0 })
prune-Sound limit goes s v = record {
  limited = v.limited;
  bounded = λ h. omega (arith, v.bounded h, length-prune_where goes s.sessions);
  mapped = prune_where-IsMap goes s.sessions v.mapped;
  keyed = λ k x e. v.keyed k x (
      left_over (lookup SessionKey-discrete k s.sessions)
        (sym (lookup-prune_where goes k s.sessions v.mapped) ∙ e));
}
  where
    left_over : (o : Option Session) {x : Session} → kept_unless goes o ≡ some x → o ≡ some x
    left_over none e = e
    left_over (some y) e = ground (arith, e)

perform-Sound :
    (limit : ℕ) (c : Call) (s : SessionStore) → Sound limit s → Sound limit (perform c s)
unfolding perform prune prune_by_agent
perform-Sound limit (creates id now key) s v = get_or_create-Sound limit id now key s v
perform-Sound limit (touches now key) s v = touch-Sound limit now key s v
perform-Sound limit (deletes key) s v = delete_session-Sound limit key s v
perform-Sound limit (prunes now max_idle) s v =
    unfold pruned_store in (prune-Sound limit (is_idle now max_idle) s v)
perform-Sound limit (prunes_agent now agent_id max_idle) s v =
    unfold pruned_store in
    (prune-Sound limit (λ x. same x.agent_id agent_id && is_idle now max_idle x) s v)

perform_all-Sound :
    (limit : ℕ) (cs : List Call) (s : SessionStore) → Sound limit s → Sound limit (perform_all cs s)
unfolding perform_all
perform_all-Sound limit [] s v = v
perform_all-Sound limit (c ∷ cs) s v =
    perform_all-Sound limit cs (perform c s) (perform-Sound limit c s v)

-- However GetOrCreate, Touch, Delete, Prune and PruneByAgent are called on a new store with a
-- limit, it holds at most that many sessions, one at each key, and each at its own key.
pub store-Sound :
    (limit : ℕ) (cs : List Call)
    → 0 < limit
    → let s = perform_all cs (set_max_sessions limit new_session_store) in
      (len s ≤ limit)
      × IsMap SessionKey-discrete s.sessions
      × ((k : SessionKey) (x : Session)
          → lookup SessionKey-discrete k s.sessions ≡ some x
          → x.key ≡ k)
unfolding len
store-Sound limit cs h =
    let v = perform_all-Sound limit cs (set_max_sessions limit new_session_store) (
      unfold set_max_sessions lookup in
      (record { limited = refl; bounded = λ _. omega arith; mapped = tt; keyed = λ k x e. cc })) in
    (v.bounded h, v.mapped, v.keyed)

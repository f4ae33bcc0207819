-- ===== src/Channel/Dispatcher.antt =====
-- internal/channel/dispatcher.go: outbound messages go to the channel of their name. What a channel
-- does with a message is an argument.
use sclaw.Prelude.{
  ◌≡◌, refl, ap, ◌∙◌, inl, inr, ◌⊎◌, String, Bool, true, false, Option, none, some, List, [], ◌∷◌,
  String-discrete, Option-cases,
}
use sclaw.Prelude.Dict.{Dict, lookup, insert, lookup-insert_self}
use sclaw.Message.{OutboundMessage}

pub data DispatchError : Type 0 where
  no_channel duplicate_channel : DispatchError
  channel_failed : String → DispatchError

-- Dispatcher, of channels of any type.
abbrev pub Dispatcher : Type 0 → Type 0
Dispatcher C = Dict String C

module _ {C : Type 0} where
  -- Register
  unfoldable pub register_channel : String → C → Dispatcher C → Dispatcher C × Option DispatchError
  register_channel name c d = elim (lookup String-discrete name d) [
    | some old ↦ (d, some duplicate_channel)
    | none ↦ (insert String-discrete name c d, none)
  ]

  -- Get
  abbrev pub get_channel : String → Dispatcher C → Option C
  get_channel name d = lookup String-discrete name d

  -- Send
  unfoldable pub dispatch :
      (C → OutboundMessage → Option String) → Dispatcher C → OutboundMessage → Option DispatchError
  dispatch act d m = elim (lookup String-discrete m.channel d) [
    | none ↦ some no_channel
    | some c ↦ elim (act c m) [ none ↦ none | some e ↦ some (channel_failed e) ]
  ]

  -- SendStream: whether the stream was delivered. A channel that streams returns its result.
  unfoldable pub dispatch_stream :
      (C → OutboundMessage → Option (Option String))
      → Dispatcher C
      → OutboundMessage
      → DispatchError ⊎ Bool
  dispatch_stream act d m = elim (lookup String-discrete m.channel d) [
    | none ↦ inl no_channel
    | some c ↦ elim (act c m) [
      | none ↦ inr false
      | some none ↦ inr true
      | some (some e) ↦ inl (channel_failed e)
    ]
  ]

  -- Channels
  abbrev pub channel_names : Dispatcher C → List String
  channel_names [] = []
  channel_names (e ∷ d) = e.key ∷ channel_names d

  dispatch_found :
      (act : C → OutboundMessage → Option String) (c : C) (d : Dispatcher C) (m : OutboundMessage)
      → lookup String-discrete m.channel d ≡ some c
      → dispatch act d m ≡ elim (act c m) [ none ↦ none | some e ↦ some (channel_failed e) ]
  unfolding dispatch
  dispatch_found act c d m e = rw (e, dispatch) refl

  -- Once a channel is registered, a message of its name goes to it; a name that is taken is refused,
  -- and its channel stays.
  pub dispatch-register_channel :
      (act : C → OutboundMessage → Option String) (name : String) (c : C) (d : Dispatcher C)
      (m : OutboundMessage)
      → m.channel ≡ name
      → (((register_channel name c d).1 ≡ none)
          × (dispatch act (register_channel name c d).0 m
              ≡ elim (act c m) [ none ↦ none | some e ↦ some (channel_failed e) ]))
        ⊎ (((register_channel name c d).1 ≡ some duplicate_channel)
            × ((register_channel name c d).0 ≡ d))
  unfolding register_channel
  dispatch-register_channel act name c d m e = elim (Option-cases (lookup String-discrete name d)) [
    | inl n ↦ inl (
      rw (n, register_channel) refl,
      rw (n, register_channel)
          (dispatch_found act c (insert String-discrete name c d) m (
            ap (λ k. lookup String-discrete k (insert String-discrete name c d)) e
            ∙ lookup-insert_self String-discrete name c d)),
    )
    | inr (old, s) ↦ inr (rw (s, register_channel) refl, rw (s, register_channel) refl)
  ]

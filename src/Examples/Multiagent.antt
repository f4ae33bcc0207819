-- ===== src/Examples/Multiagent.antt =====
-- Runs of internal/multiagent/registry.go.
use sclaw.Prelude.{◌≡◌, refl, true, false, none, List, [], ◌∷◌, inr, String-discrete}
use sclaw.Prelude.Dict.{lookup, insert}
use sclaw.Message.{InboundMessage, dm}
use sclaw.Multiagent.{
  RoutingConfig, AgentEntry, Registry, empty_registry, add_agent, with_default, new_registry,
  resolve, or_default, ThreadRouteKey-discrete,
}
use sclaw.Multiagent.Routing.{named_for, default_of, resolve-named_for}

abbrev no_routes : RoutingConfig
no_routes = record { users = []; threads = []; groups = []; channels = []; is_default = false }

abbrev agents : List AgentEntry
agents =
    record { id = "main"; routing = record no_routes { is_default = true } }
    ∷ record {
      id = "ops";
      routing = record no_routes { threads = "7:2" ∷ "bad" ∷ []; groups = "9" ∷ [] };
    }
    ∷ record { id = "bob"; routing = record no_routes { users = "bob" ∷ [] } }
    ∷ []

abbrev registry : Registry
registry =
    with_default (record { id = "bob"; routing = record no_routes { users = "bob" ∷ [] } })
      (add_agent (record { id = "bob"; routing = record no_routes { users = "bob" ∷ [] } })
        (add_agent
          (record {
            id = "ops";
            routing = record no_routes { threads = "7:2" ∷ "bad" ∷ []; groups = "9" ∷ [] };
          })
          (record (add_agent
            (record { id = "main"; routing = record no_routes { is_default = true } })
            empty_registry) { default_agent = "main" })))

built : new_registry agents ≡ inr registry
unfolding new_registry String-discrete
built = refl

abbrev in_thread : InboundMessage
in_thread = record {
  id = "1";
  timestamp = 5;
  channel = "telegram";
  sender = record { id = "eve"; username = ""; display_name = "" };
  chat = record { id = "7"; chat_type = dm; title = "" };
  thread_id = "2";
  reply_to_id = "";
  blocks = [];
  mentions = none;
}

resolve_run : resolve registry in_thread ≡ inr "ops"
unfolding resolve add_agent with_default lookup insert String-discrete ThreadRouteKey-discrete
resolve_run = refl

resolve-named_for_example :
    resolve registry in_thread ≡ or_default (default_of "" agents) (named_for agents in_thread)
resolve-named_for_example = resolve-named_for agents registry in_thread built

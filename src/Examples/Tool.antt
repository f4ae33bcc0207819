-- ===== src/Examples/Tool.antt =====
-- Runs of internal/tool.
use sclaw.Prelude.{
  false, ◌≡◌, ◌↔◌, refl, inr, true, false, none, some, [], ◌∷◌, String-discrete, trim_space,
}
use sclaw.Prelude.Dict.{lookup, insert}
use sclaw.Tool.Policy.{
  Policy, Explicit, resolve_explicit_level, validate_policy, validate_tools, validate_policy_list,
  and_then, is_valid_approval_level, resolve_policy, tool_in_list,
}
use sclaw.Tool.Policy.Lists.{Normalized}
use sclaw.Tool.Policy.Resolution.{resolve-validate}
use sclaw.Tool.Registry.{Tool, Registry, decided, Reply, execute, get, charge}
use sclaw.Tool.Registry.Gate.{has_run, elevated_on, Permits, execute_ran_iff}

abbrev policy : Policy
policy = record {
  default_level = "deny";
  tools = record { key = "read"; value = "allow" } ∷ [];
  allow = "read" ∷ [];
  ask = " write " ∷ [];
  deny = "exec" ∷ [];
}

abbrev levels : Explicit
levels =
    record { key = "read"; value = "allow" }
    ∷ record { key = "write"; value = "ask" }
    ∷ record { key = "exec"; value = "deny" }
    ∷ []

policy_validates : validate_policy policy ≡ inr levels
unfolding validate_policy validate_tools validate_policy_list and_then is_valid_approval_level
    String-discrete trim_space lookup insert
policy_validates = refl

policy-Normalized : Normalized policy.tools
unfolding trim_space
policy-Normalized = (refl, tt)

resolve-validate_example :
    resolve_explicit_level policy "write" ≡ lookup String-discrete "write" levels
unfolding lookup
resolve-validate_example =
    resolve-validate policy levels (refl, tt) policy-Normalized policy_validates "write"

-- A mapping whose key carries a space.
abbrev padded : Policy
padded = record {
  default_level = "allow";
  tools = record { key = "exec "; value = "deny" } ∷ [];
  allow = [];
  ask = [];
  deny = [];
}

padded_validates : validate_policy padded ≡ inr (record { key = "exec"; value = "deny" } ∷ [])
unfolding validate_policy validate_tools validate_policy_list and_then is_valid_approval_level
    String-discrete trim_space lookup insert
padded_validates = refl

-- The padded key validates as a denial of exec, and the resolver allows exec.
padded_allows : resolve_policy (record { dm = padded; group = padded }) "dm" "exec" "ask" ≡ "allow"
unfolding resolve_policy resolve_explicit_level tool_in_list String-discrete trim_space lookup
padded_allows = refl

abbrev write : Tool
write = record { name = "write"; scopes = "read_write" ∷ []; default_policy = "ask" }

abbrev registry : Registry
registry = record {
  tools = record { key = "write"; value = write } ∷ [];
  audited = true;
  rate_limiter = none;
}

abbrev wrote : Tool → Reply
wrote t = record { output = record { content = "ok"; is_error = false }; error = none }

execute_ran_iff_example :
    has_run
        (execute 5 registry "write" "s"
          (record { dm = policy; group = policy })
          "dm"
          none
          (some (decided true))
          wrote).verdict
      ≡ true
    ↔ ((t : Tool) × (get registry "write" ≡ inr t)
        × ((charge 5 registry "s").1 ≡ true)
        × Permits
            (resolve_policy (record { dm = policy; group = policy }) "dm" t.name t.default_policy)
            (elevated_on 5 none)
            (some (decided true)))
execute_ran_iff_example =
    execute_ran_iff 5 registry "write" "s" (record { dm = policy; group = policy }) "dm" none
      (some (decided true)) wrote

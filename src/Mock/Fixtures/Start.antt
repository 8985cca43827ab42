-- ===== src/Mock/Fixtures/Start.antt =====
-- The state that the mock server starts with, and the references between its objects.
pub mod Laws
use pg_swarm.Base.{String, Bool, true, List, [], ◌∷◌, ◌&&◌, any, all}
use pg_swarm.Js.{Value, undefined, null, Object, get, strict_eq}
use pg_swarm.Mock.{State}
use pg_swarm.Mock.EventRules.{name_or_empty, find_value}
use pg_swarm.Mock.Fixtures.{Clock}
use pg_swarm.Mock.Fixtures.Satellites.{satellites}
use pg_swarm.Mock.Fixtures.Profiles.{profiles, deployment_rules}
use pg_swarm.Mock.Fixtures.Clusters.{clusters}
use pg_swarm.Mock.Fixtures.Catalog.{postgres_versions, postgres_variants, storage_tiers}
use pg_swarm.Mock.Fixtures.Params.{param_classifications}
use pg_swarm.Mock.Fixtures.Events.{event_rules, event_actions}
use pg_swarm.Mock.Fixtures.Handlers.{event_handlers, event_rule_sets, rule_set_handlers}

-- `state` of `mockApiPlugin`, with the arrays it shares; `health` and `events` of mock/data.js are
-- arguments.
unfoldable pub initial : Clock → List Object → List Object → State
initial clock health events = record {
  satellites = satellites clock;
  clusters = clusters clock;
  health = health;
  events = events;
  profiles = profiles clock;
  deployment_rules = deployment_rules clock;
  postgres_versions = postgres_versions;
  postgres_variants = postgres_variants;
  storage_tiers = storage_tiers clock;
  pg_param_classifications = param_classifications clock;
  event_rules = event_rules;
  event_actions = event_actions;
  event_handlers = event_handlers;
  event_rule_sets = event_rule_sets clock;
  rule_set_handlers = rule_set_handlers;
}

-- Whether an object of the list has the value under `id`.
unfoldable pub identifies : List Object → Value → Bool
identifies xs v = any (λ o. strict_eq (get o "id") v) xs

-- A reference that may also be undefined or null.
unfoldable pub optional : List Object → Value → Bool
unfolding identifies
optional xs undefined = true
optional xs null = true
optional xs v = identifies xs v

-- The names that a handler carries are those of its rule and its action.
unfoldable pub is_named : List Object → List Object → Object → Bool
is_named rules actions h =
    strict_eq (get h "event_rule_name") (name_or_empty (find_value (get h "event_rule_id") rules))
    && strict_eq (get h "event_action_name")
        (name_or_empty (find_value (get h "event_action_id") actions))

-- Every reference of the state leads to an object.
unfoldable pub references_resolve : State → Bool
unfolding identifies optional is_named
references_resolve s =
    all (λ c. identifies s.satellites (get c "satellite_id")) s.clusters
    && all (λ c. optional s.deployment_rules (get c "deployment_rule_id")) s.clusters
    && all (λ r. identifies s.profiles (get r "profile_id")) s.deployment_rules
    && all (λ p. optional s.event_rule_sets (get p "event_rule_set_id")) s.profiles
    && all (λ h. identifies s.event_rules (get h "event_rule_id")) s.event_handlers
    && all (λ h. identifies s.event_actions (get h "event_action_id")) s.event_handlers
    && all (is_named s.event_rules s.event_actions) s.event_handlers
    && all (λ m. all (identifies s.event_handlers) m.1) s.rule_set_handlers

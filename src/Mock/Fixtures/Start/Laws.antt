-- ===== src/Mock/Fixtures/Start/Laws.antt =====
-- What holds of the mock server from its start.
use pg_swarm.Base.{◌≡◌, refl, Bool, true, not, ◌&&◌, all, List, [], ◌∷◌, All, arith}
use pg_swarm.Js.{Value, Object, get, strict_eq}
use pg_swarm.Mock.{Host, Request}
use pg_swarm.Mock.Fixtures.{Clock}
use pg_swarm.Mock.Fixtures.Start.{initial, references_resolve, identifies, optional, is_named}
use pg_swarm.Mock.Fixtures.Satellites.{satellites}
use pg_swarm.Mock.Fixtures.Profiles.{profiles, deployment_rules}
use pg_swarm.Mock.Fixtures.Clusters.{clusters}
use pg_swarm.Mock.Fixtures.Events.{event_rules, event_actions}
use pg_swarm.Mock.Fixtures.Handlers.{event_handlers, event_rule_sets, rule_set_handlers}
use pg_swarm.Mock.EventRules.{find_value}
use pg_swarm.Mock.Collection.{find_by_id, has_id}
use pg_swarm.Mock.RuleSets.{IdMap, includes, is_builtin}
use pg_swarm.Mock.RuleSets.Ids.{IsDistinct, AllDistinct}
use pg_swarm.Mock.Server.RuleSets.{
  serve_all, serve_all-AllDistinct, serve_all-IsBuiltin, IsBuiltin, LeavesIdentity,
}

-- Whatever the time, the references of the state that the mock server starts with lead to objects:
-- of clusters to satellites and deployment rules, of these to profiles, of profiles to rule sets,
-- of handlers to rules and actions, whose names they carry, and of rule sets to handlers.
pub initial-references_resolve :
    (clock : Clock) (health events : List Object)
    → references_resolve (initial clock health events) ≡ true
unfolding references_resolve initial identifies optional is_named satellites clusters profiles
    deployment_rules event_rules event_actions event_handlers event_rule_sets rule_set_handlers
    find_value strict_eq get
initial-references_resolve clock health events = refl

abbrev has_no_repeat : List Value → Bool
has_no_repeat [] = true
has_no_repeat (v ∷ vs) = not (includes vs v) && has_no_repeat vs

has_no_repeat-IsDistinct : (vs : List Value) → has_no_repeat vs ≡ true → IsDistinct vs
has_no_repeat-IsDistinct [] h = tt
has_no_repeat-IsDistinct (v ∷ vs) h = (ground arith, has_no_repeat-IsDistinct vs (ground arith))

all_without_repeat-AllDistinct : (m : IdMap) → all (λ e. has_no_repeat e.1) m ≡ true → AllDistinct m
all_without_repeat-AllDistinct [] h = tt
all_without_repeat-AllDistinct ((k, vs) ∷ m) h =
    (has_no_repeat-IsDistinct vs (ground arith), all_without_repeat-AllDistinct m (ground arith))

initial-AllDistinct :
    (clock : Clock) (health events : List Object)
    → AllDistinct (initial clock health events).rule_set_handlers
unfolding initial rule_set_handlers includes strict_eq
initial-AllDistinct clock health events = all_without_repeat-AllDistinct rule_set_handlers refl

initial-IsBuiltin :
    (clock : Clock) (health events : List Object)
    → IsBuiltin "rs-default" (initial clock health events).event_rule_sets
unfolding initial event_rule_sets is_builtin find_by_id has_id get
initial-IsBuiltin clock health events = refl

-- After any requests, whose bodies write neither `id` nor `builtin`, to a mock server that has
-- started with the fixtures, no rule set holds a handler twice, and the default rule set is still
-- there and built-in.
pub session_keeps_rule_sets :
    (clock : Clock) (health events : List Object) (reqs : List (Host × Request))
    → All (λ r. LeavesIdentity r.1) reqs
    → AllDistinct (serve_all reqs (initial clock health events)).rule_set_handlers
      × IsBuiltin "rs-default" (serve_all reqs (initial clock health events)).event_rule_sets
session_keeps_rule_sets clock health events reqs l = (
  serve_all-AllDistinct reqs _ (initial-AllDistinct clock health events),
  serve_all-IsBuiltin reqs "rs-default" _ l (initial-IsBuiltin clock health events),
)

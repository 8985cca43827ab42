-- ===== src/Mock/Routes.antt =====
-- The tests of mock/plugin.js on the path and the method of a request, in the order of the source,
-- as tables of methods, patterns and routes.
pub mod Laws
use pg_swarm.Base.{
  ℕ, String, Bool, true, false, Option, none, some, List, [], ◌∷◌, ◌++◌, ◌&&◌, if◌then◌else◌,
}
use pg_swarm.Mock.{Method, get, post, put, delete, other}
use pg_swarm.Mock.Paths.{lit, any_id, Pattern, matches}
use pg_swarm.Mock.Satellites.{
  SatelliteRoute, satellites, approve, reject, labels, refresh_storage_classes, tier_mappings,
  satellite_logs, logs_stream, log_level,
}
use pg_swarm.Mock.Clusters.{ClusterRoute, clusters, pause, resume, switchover, health, events}
use pg_swarm.Mock.Profiles.{
  ProfileRoute, profiles, create_profile, update_profile, delete_profile, clone_profile,
  DeploymentRoute, deployment_rules, create_deployment_rule, get_deployment_rule,
  update_deployment_rule, delete_deployment_rule, deployment_rule_clusters,
}
use pg_swarm.Mock.Catalog.{
  CatalogRoute, postgres_versions, create_version, update_version, delete_version, default_version,
  postgres_variants, create_variant, delete_variant, storage_tiers, create_tier, update_tier,
  delete_tier, ParamRoute, param_classifications, upsert_classification, delete_classification,
}
use pg_swarm.Mock.EventRules.{
  EventRoute, event_rules, create_event_rule, update_event_rule, delete_event_rule, event_actions,
  create_event_action, update_event_action, delete_event_action, event_handlers,
  create_event_handler, update_event_handler, delete_event_handler,
}
use pg_swarm.Mock.RuleSets.{
  RuleSetRoute, event_rule_sets, create_rule_set, get_rule_set, update_rule_set, delete_rule_set,
  rule_set_handlers, add_handler, remove_handler,
}

pub data Route : Type 0 where
  satellite : SatelliteRoute → Route
  cluster : ClusterRoute → Route
  profile : ProfileRoute → Route
  deployment : DeploymentRoute → Route
  catalog : CatalogRoute → Route
  event : EventRoute → Route
  rule_set : RuleSetRoute → Route
  param : ParamRoute → Route

pub record Entry : Type 0 where
  -- none where the source tests no method
  pub method : Option Method
  pub pattern : Pattern
  pub route : Route

abbrev pub same_method : Method → Method → Bool
same_method get get = true
same_method post post = true
same_method put put = true
same_method delete delete = true
same_method _ _ = false

abbrev pub allows : Option Method → Method → Bool
allows none m = true
allows (some n) m = same_method n m

-- the condition of one `if`
unfoldable pub fires : Method → List String → Entry → Bool
fires m parts e = matches e.pattern parts && allows e.method m

abbrev on : Method → Pattern → Route → Entry
on m pattern route = record { method = some m; pattern = lit "" ∷ pattern; route = route }

abbrev on_any : Pattern → Route → Entry
on_any pattern route = record { method = none; pattern = lit "" ∷ pattern; route = route }

unfoldable pub satellite_table : List Entry
satellite_table =
    on get (lit "satellites" ∷ []) (satellite satellites)
    ∷ on post (lit "satellites" ∷ any_id ∷ lit "approve" ∷ []) (satellite approve)
    ∷ on post (lit "satellites" ∷ any_id ∷ lit "reject" ∷ []) (satellite reject)
    ∷ on put (lit "satellites" ∷ any_id ∷ lit "labels" ∷ []) (satellite labels)
    ∷ on post (lit "satellites" ∷ any_id ∷ lit "refresh-storage-classes" ∷ [])
        (satellite refresh_storage_classes)
    ∷ on put (lit "satellites" ∷ any_id ∷ lit "tier-mappings" ∷ []) (satellite tier_mappings)
    ∷ on get (lit "satellites" ∷ any_id ∷ lit "logs" ∷ []) (satellite satellite_logs)
    ∷ on_any (lit "satellites" ∷ any_id ∷ lit "logs" ∷ lit "stream" ∷ []) (satellite logs_stream)
    ∷ on post (lit "satellites" ∷ any_id ∷ lit "log-level" ∷ []) (satellite log_level)
    ∷ []

unfoldable pub cluster_table : List Entry
cluster_table =
    on get (lit "clusters" ∷ []) (cluster clusters)
    ∷ on post (lit "clusters" ∷ any_id ∷ lit "pause" ∷ []) (cluster pause)
    ∷ on post (lit "clusters" ∷ any_id ∷ lit "resume" ∷ []) (cluster resume)
    ∷ on post (lit "clusters" ∷ any_id ∷ lit "switchover" ∷ []) (cluster switchover)
    ∷ on get (lit "health" ∷ []) (cluster health)
    ∷ on get (lit "events" ∷ []) (cluster events)
    ∷ []

unfoldable pub profile_table : List Entry
profile_table =
    on get (lit "profiles" ∷ []) (profile profiles)
    ∷ on post (lit "profiles" ∷ []) (profile create_profile)
    ∷ on put (lit "profiles" ∷ any_id ∷ []) (profile update_profile)
    ∷ on delete (lit "profiles" ∷ any_id ∷ []) (profile delete_profile)
    ∷ on post (lit "profiles" ∷ any_id ∷ lit "clone" ∷ []) (profile clone_profile)
    ∷ []

unfoldable pub deployment_table : List Entry
deployment_table =
    on get (lit "deployment-rules" ∷ []) (deployment deployment_rules)
    ∷ on post (lit "deployment-rules" ∷ []) (deployment create_deployment_rule)
    ∷ on get (lit "deployment-rules" ∷ any_id ∷ []) (deployment get_deployment_rule)
    ∷ on put (lit "deployment-rules" ∷ any_id ∷ []) (deployment update_deployment_rule)
    ∷ on delete (lit "deployment-rules" ∷ any_id ∷ []) (deployment delete_deployment_rule)
    ∷ on get (lit "deployment-rules" ∷ any_id ∷ lit "clusters" ∷ [])
        (deployment deployment_rule_clusters)
    ∷ []

unfoldable pub catalog_table : List Entry
catalog_table =
    on get (lit "postgres-versions" ∷ []) (catalog postgres_versions)
    ∷ on post (lit "postgres-versions" ∷ []) (catalog create_version)
    ∷ on put (lit "postgres-versions" ∷ any_id ∷ []) (catalog update_version)
    ∷ on delete (lit "postgres-versions" ∷ any_id ∷ []) (catalog delete_version)
    ∷ on post (lit "postgres-versions" ∷ any_id ∷ lit "default" ∷ []) (catalog default_version)
    ∷ on get (lit "postgres-variants" ∷ []) (catalog postgres_variants)
    ∷ on post (lit "postgres-variants" ∷ []) (catalog create_variant)
    ∷ on delete (lit "postgres-variants" ∷ any_id ∷ []) (catalog delete_variant)
    ∷ on get (lit "storage-tiers" ∷ []) (catalog storage_tiers)
    ∷ on post (lit "storage-tiers" ∷ []) (catalog create_tier)
    ∷ on put (lit "storage-tiers" ∷ any_id ∷ []) (catalog update_tier)
    ∷ on delete (lit "storage-tiers" ∷ any_id ∷ []) (catalog delete_tier)
    ∷ []

unfoldable pub event_table : List Entry
event_table =
    on get (lit "event-rules" ∷ []) (event event_rules)
    ∷ on post (lit "event-rules" ∷ []) (event create_event_rule)
    ∷ on put (lit "event-rules" ∷ any_id ∷ []) (event update_event_rule)
    ∷ on delete (lit "event-rules" ∷ any_id ∷ []) (event delete_event_rule)
    ∷ on get (lit "event-actions" ∷ []) (event event_actions)
    ∷ on post (lit "event-actions" ∷ []) (event create_event_action)
    ∷ on put (lit "event-actions" ∷ any_id ∷ []) (event update_event_action)
    ∷ on delete (lit "event-actions" ∷ any_id ∷ []) (event delete_event_action)
    ∷ on get (lit "event-handlers" ∷ []) (event event_handlers)
    ∷ on post (lit "event-handlers" ∷ []) (event create_event_handler)
    ∷ on put (lit "event-handlers" ∷ any_id ∷ []) (event update_event_handler)
    ∷ on delete (lit "event-handlers" ∷ any_id ∷ []) (event delete_event_handler)
    ∷ []

unfoldable pub rule_set_table : List Entry
rule_set_table =
    on get (lit "event-rule-sets" ∷ []) (rule_set event_rule_sets)
    ∷ on post (lit "event-rule-sets" ∷ []) (rule_set create_rule_set)
    ∷ on get (lit "event-rule-sets" ∷ any_id ∷ []) (rule_set get_rule_set)
    ∷ on put (lit "event-rule-sets" ∷ any_id ∷ []) (rule_set update_rule_set)
    ∷ on delete (lit "event-rule-sets" ∷ any_id ∷ []) (rule_set delete_rule_set)
    ∷ on get (lit "event-rule-sets" ∷ any_id ∷ lit "handlers" ∷ []) (rule_set rule_set_handlers)
    ∷ on post (lit "event-rule-sets" ∷ any_id ∷ lit "handlers" ∷ []) (rule_set add_handler)
    ∷ on delete (lit "event-rule-sets" ∷ any_id ∷ lit "handlers" ∷ any_id ∷ [])
        (rule_set remove_handler)
    ∷ []

unfoldable pub param_table : List Entry
param_table =
    on get (lit "pg-param-classifications" ∷ []) (param param_classifications)
    ∷ on post (lit "pg-param-classifications" ∷ []) (param upsert_classification)
    ∷ on delete (lit "pg-param-classifications" ∷ any_id ∷ []) (param delete_classification)
    ∷ []

-- The routes in the order in which the source tests them.
unfoldable pub route_table : List Entry
unfolding satellite_table cluster_table profile_table deployment_table catalog_table event_table
    rule_set_table param_table
route_table =
    satellite_table ++ cluster_table ++ profile_table ++ deployment_table ++ catalog_table
    ++ event_table ++ rule_set_table ++ param_table

-- The first test that passes.
unfoldable pub first_route : List Entry → Method → List String → Option Route
first_route [] m parts = none
first_route (e ∷ es) m parts = if fires m parts e then some e.route else first_route es m parts

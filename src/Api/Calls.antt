-- ===== src/Api/Calls.antt =====
-- All functions of the `api` object of dashboard/src/api.js, and their way through the server of
-- mock/plugin.js and back.
use pg_swarm.Base.{ℕ, String, ◌≡◌, refl, Option, none, some}
use pg_swarm.Js.{Value, num, get}
use pg_swarm.Js.Json.{json_object}
use pg_swarm.Js.Text.{◌⧺◌}
use pg_swarm.Mock.{State, Host, Request, Handled}
use pg_swarm.Mock.Paths.{api_prefix, split_slash, part_at}
use pg_swarm.Mock.Paths.Laws.{strip_api-append}
use pg_swarm.Mock.Routes.{Route}
use pg_swarm.Mock.Server.{handle, unhandled, run_route, serve_path, serve}
use pg_swarm.Api.{Sent}
use pg_swarm.Api.Paths.{Located}
use pg_swarm.Api.Satellites.{
  SatelliteCall, satellite_request, satellite_route, satellite_ids, SafeSatelliteCall,
  satellite_request-Located,
}
use pg_swarm.Api.Clusters.{
  ClusterCall, cluster_request, cluster_route, cluster_ids, SafeClusterCall,
  cluster_request-Located,
}
use pg_swarm.Api.Storage.{
  StorageCall, storage_request, storage_route, storage_ids, SafeStorageCall,
  storage_request-Located,
}
use pg_swarm.Api.Profiles.{
  ProfileCall, profile_request, profile_route, profile_ids, SafeProfileCall,
  profile_request-Located,
}
use pg_swarm.Api.Deployments.{
  DeploymentCall, deployment_request, deployment_route, deployment_ids, SafeDeploymentCall,
  deployment_request-Located,
}
use pg_swarm.Api.Catalog.{
  CatalogCall, catalog_request, catalog_route, catalog_ids, SafeCatalogCall,
  catalog_request-Located,
}
use pg_swarm.Api.Events.{
  EventCall, event_request, event_route, event_ids, SafeEventCall, event_request-Located,
}
use pg_swarm.Api.RuleSets.{
  RuleSetCall, rule_set_request, rule_set_route, rule_set_ids, SafeRuleSetCall,
  rule_set_request-Located,
}

pub data Call : Type 0 where
  satellite_call : SatelliteCall → Call
  cluster_call : ClusterCall → Call
  storage_call : StorageCall → Call
  profile_call : ProfileCall → Call
  deployment_call : DeploymentCall → Call
  catalog_call : CatalogCall → Call
  event_call : EventCall → Call
  rule_set_call : RuleSetCall → Call

-- The call's arguments to `request`.
unfoldable pub request_of : Call → Sent
request_of (satellite_call c) = satellite_request c
request_of (cluster_call c) = cluster_request c
request_of (storage_call c) = storage_request c
request_of (profile_call c) = profile_request c
request_of (deployment_call c) = deployment_request c
request_of (catalog_call c) = catalog_request c
request_of (event_call c) = event_request c
request_of (rule_set_call c) = rule_set_request c

-- The route that is meant to answer the call, if the server has one.
abbrev pub route_of : Call → Option Route
route_of (satellite_call c) = satellite_route c
route_of (cluster_call c) = cluster_route c
route_of (storage_call c) = storage_route c
route_of (profile_call c) = profile_route c
route_of (deployment_call c) = deployment_route c
route_of (catalog_call c) = catalog_route c
route_of (event_call c) = event_route c
route_of (rule_set_call c) = rule_set_route c

abbrev pub ids_of : Call → String × String
ids_of (satellite_call c) = satellite_ids c
ids_of (cluster_call c) = cluster_ids c
ids_of (storage_call c) = storage_ids c
ids_of (profile_call c) = profile_ids c
ids_of (deployment_call c) = deployment_ids c
ids_of (catalog_call c) = catalog_ids c
ids_of (event_call c) = event_ids c
ids_of (rule_set_call c) = rule_set_ids c

-- The ids of the call reach the server as they are.
abbrev pub SafeCall : Call → Type 0
SafeCall (satellite_call c) = SafeSatelliteCall c
SafeCall (cluster_call c) = SafeClusterCall c
SafeCall (storage_call c) = SafeStorageCall c
SafeCall (profile_call c) = SafeProfileCall c
SafeCall (deployment_call c) = SafeDeploymentCall c
SafeCall (catalog_call c) = SafeCatalogCall c
SafeCall (event_call c) = SafeEventCall c
SafeCall (rule_set_call c) = SafeRuleSetCall c

request_of-Located : (c : Call) → SafeCall c → Located (request_of c) (ids_of c) (route_of c)
unfolding request_of
request_of-Located (satellite_call c) h = satellite_request-Located c h
request_of-Located (cluster_call c) h = cluster_request-Located c h
request_of-Located (storage_call c) h = storage_request-Located c h
request_of-Located (profile_call c) h = profile_request-Located c h
request_of-Located (deployment_call c) h = deployment_request-Located c h
request_of-Located (catalog_call c) h = catalog_request-Located c h
request_of-Located (event_call c) h = event_request-Located c h
request_of-Located (rule_set_call c) h = rule_set_request-Located c h

-- `parseInt` of the query parameter `limit`, which the client writes from a number
abbrev limit_of : Value → Option ℕ
limit_of (num n) = some n
limit_of _ = none

-- `fetch(API + path, opts)`, as the server receives it: its `new URL` gives back a path of plain
-- parts as it was, and the body is what the JSON text keeps.
unfoldable pub wire : Sent → Request
wire q = record {
  method = q.method;
  pathname = api_prefix ⧺ q.path;
  limit = limit_of (get q.query "limit");
  body = some (json_object q.body);
}

-- What the server should do with the call: run the handler that is meant, with the ids of the call.
abbrev pub answer_from : Host → Call → State → Option Route → Handled
answer_from host c s none = (s, unhandled (wire (request_of c)) (request_of c).path)
answer_from host c s (some r) = handle host (wire (request_of c)) (ids_of c).0 (ids_of c).1 r s

abbrev pub answer : Host → Call → State → Handled
answer host c s = answer_from host c s (route_of c)

run_route-answer_from :
    (host : Host) (c : Call) (s : State) (route : Option Route)
    → part_at (split_slash (request_of c).path) 2 ≡ (ids_of c).0
    → part_at (split_slash (request_of c).path) 4 ≡ (ids_of c).1
    → run_route host (wire (request_of c)) (request_of c).path route s ≡ answer_from host c s route
unfolding run_route
run_route-answer_from host c s none i j = refl
run_route-answer_from host c s (some r) i j = rw (i, j) refl

-- Every call of the client whose ids are not empty and made of ASCII letters, digits, '-' and '_'
-- is answered by the handler that is meant for it, with the ids of the call; where the server has no route for it, the answer is the
-- fallback and the state stays.
pub serve-request_of :
    (host : Host) (c : Call) (s : State)
    → SafeCall c
    → serve host (wire (request_of c)) s ≡ answer host c s
unfolding serve wire
serve-request_of host c s h =
    let l = request_of-Located c h in
    rw (strip_api-append, serve_path, l.routed)
      (run_route-answer_from host c s (route_of c) l.first_id l.second_id)

-- ===== src/Mock/Server/Reads.antt =====
-- Requests that change nothing: those with the method GET, and those that are refused.
use pg_swarm.Base.{
  String, ◌≡◌, refl, Bool, true, false, Option, none, some, List, [], ◌∷◌, if◌then◌else◌, all,
}
use mathlib.Core.Bool.{and-eq-true_iff}
use pg_swarm.Base.{subst, Bool-cases, inl, inr}
use pg_swarm.Mock.{State, Host, Method, Request}
use pg_swarm.Mock.Satellites.{SatelliteRoute, handle_satellite}
use pg_swarm.Mock.Clusters.{ClusterRoute, handle_cluster}
use pg_swarm.Mock.Profiles.{ProfileRoute, handle_profile, DeploymentRoute, handle_deployment}
use pg_swarm.Mock.Catalog.{CatalogRoute, handle_catalog, ParamRoute, handle_param}
use pg_swarm.Mock.EventRules.{EventRoute, handle_event}
use pg_swarm.Mock.RuleSets.{RuleSetRoute, handle_rule_set}
use pg_swarm.Mock.Paths.{split_slash, strip_api}
use pg_swarm.Mock.Routes.{
  Route, satellite, cluster, profile, deployment, catalog, event, rule_set, param, Entry, allows,
  fires, route_table, first_route,
}
use pg_swarm.Mock.Server.{handle, run_route, serve_path, serve}

-- The routes whose handlers only read.
only_reads : Route → Bool
only_reads (satellite SatelliteRoute.satellites) = true
only_reads (satellite SatelliteRoute.satellite_logs) = true
only_reads (satellite SatelliteRoute.logs_stream) = true
only_reads (cluster ClusterRoute.clusters) = true
only_reads (cluster ClusterRoute.health) = true
only_reads (cluster ClusterRoute.events) = true
only_reads (profile ProfileRoute.profiles) = true
only_reads (deployment DeploymentRoute.deployment_rules) = true
only_reads (deployment DeploymentRoute.get_deployment_rule) = true
only_reads (deployment DeploymentRoute.deployment_rule_clusters) = true
only_reads (catalog CatalogRoute.postgres_versions) = true
only_reads (catalog CatalogRoute.postgres_variants) = true
only_reads (catalog CatalogRoute.storage_tiers) = true
only_reads (param ParamRoute.param_classifications) = true
only_reads (event EventRoute.event_rules) = true
only_reads (event EventRoute.event_actions) = true
only_reads (event EventRoute.event_handlers) = true
only_reads (rule_set RuleSetRoute.event_rule_sets) = true
only_reads (rule_set RuleSetRoute.get_rule_set) = true
only_reads (rule_set RuleSetRoute.rule_set_handlers) = true
only_reads _ = false

handle-only_reads :
    (host : Host) (req : Request) (id hid : String) (r : Route) (s : State)
    → only_reads r ≡ true
    → (handle host req id hid r s).0 ≡ s
unfolding handle only_reads handle_satellite handle_cluster handle_profile handle_deployment
    handle_catalog handle_param handle_event handle_rule_set
handle-only_reads host req id hid (satellite SatelliteRoute.satellites) s h = refl
handle-only_reads host req id hid (satellite SatelliteRoute.satellite_logs) s h = refl
handle-only_reads host req id hid (satellite SatelliteRoute.logs_stream) s h = refl
handle-only_reads host req id hid (cluster ClusterRoute.clusters) s h = refl
handle-only_reads host req id hid (cluster ClusterRoute.health) s h = refl
handle-only_reads host req id hid (cluster ClusterRoute.events) s h = refl
handle-only_reads host req id hid (profile ProfileRoute.profiles) s h = refl
handle-only_reads host req id hid (deployment DeploymentRoute.deployment_rules) s h = refl
handle-only_reads host req id hid (deployment DeploymentRoute.get_deployment_rule) s h = refl
handle-only_reads host req id hid (deployment DeploymentRoute.deployment_rule_clusters) s h = refl
handle-only_reads host req id hid (catalog CatalogRoute.postgres_versions) s h = refl
handle-only_reads host req id hid (catalog CatalogRoute.postgres_variants) s h = refl
handle-only_reads host req id hid (catalog CatalogRoute.storage_tiers) s h = refl
handle-only_reads host req id hid (param ParamRoute.param_classifications) s h = refl
handle-only_reads host req id hid (event EventRoute.event_rules) s h = refl
handle-only_reads host req id hid (event EventRoute.event_actions) s h = refl
handle-only_reads host req id hid (event EventRoute.event_handlers) s h = refl
handle-only_reads host req id hid (rule_set RuleSetRoute.event_rule_sets) s h = refl
handle-only_reads host req id hid (rule_set RuleSetRoute.get_rule_set) s h = refl
handle-only_reads host req id hid (rule_set RuleSetRoute.rule_set_handlers) s h = refl
handle-only_reads host req id hid _ s h = cc

-- Whether an entry that answers GET requests only reads.
get_reads : Entry → Bool
get_reads e = if allows e.method Method.get then only_reads e.route else true

get_reads-fires :
    (e : Entry) (parts : List String)
    → get_reads e ≡ true
    → fires Method.get parts e ≡ true
    → only_reads e.route ≡ true
unfolding get_reads fires
get_reads-fires e parts h k =
    let allowed : allows e.method Method.get ≡ true = ((and-eq-true_iff _ _).0 k).1 in
    rw allowed at h

first_route-only_reads :
    (es : List Entry) (parts : List String) {r : Route}
    → all get_reads es ≡ true
    → first_route es Method.get parts ≡ some r
    → only_reads r ≡ true
unfolding first_route
first_route-only_reads [] parts h e = cc
first_route-only_reads (x ∷ es) parts {r} h e =
    let (here, later) = (and-eq-true_iff _ _).0 h in
    elim (Bool-cases (fires Method.get parts x)) [
      | inl hit ↦
          let same : some x.route ≡ some r = rw hit at e in
          let route : x.route ≡ r = cc in
          subst (λ q. only_reads q ≡ true) route (get_reads-fires x parts here hit)
      | inr missed ↦ first_route-only_reads es parts later (rw missed at e)
    ]

route_table-get_reads : all get_reads route_table ≡ true
unfolding get_reads only_reads route_table
route_table-get_reads = refl

run_route-only_reads :
    (host : Host) (req : Request) (path : String) (route : Option Route) (s : State)
    → ((r : Route) → route ≡ some r → only_reads r ≡ true)
    → (run_route host req path route s).0 ≡ s
unfolding run_route
run_route-only_reads host req path none s h = refl
run_route-only_reads host req path (some r) s h = handle-only_reads host req _ _ r s (h r refl)

serve_path-get :
    (host : Host) (req : Request) (path : Option String) (s : State)
    → req.method ≡ Method.get
    → (serve_path host req path s).0 ≡ s
unfolding serve_path
serve_path-get host req none s h = refl
serve_path-get host req (some path) s h =
    run_route-only_reads host req path (first_route route_table req.method (split_slash path)) s
      λ r e. first_route-only_reads route_table (split_slash path) route_table-get_reads (rw h at e)

-- A GET request, whatever its path, leaves the state of the server as it was.
pub serve-get :
    (host : Host) (req : Request) (s : State) → req.method ≡ Method.get → (serve host req s).0 ≡ s
unfolding serve
serve-get host req s h = serve_path-get host req (strip_api req.pathname) s h

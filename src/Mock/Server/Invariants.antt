-- ===== src/Mock/Server/Invariants.antt =====
-- What every request keeps: the handler lists of the rule sets hold no id twice, and a built-in
-- rule set stays, as long as no request writes `id` or `builtin` of a rule set.
use pg_swarm.Base.{String, ◌≡◌, refl, Option, none, some, List, Bool, true, false}
use pg_swarm.Js.{Value, Object}
use pg_swarm.Mock.{State, Host, Request, Handled, props, reads_body}
use pg_swarm.Mock.Satellites.{SatelliteRoute, handle_satellite}
use pg_swarm.Mock.Clusters.{ClusterRoute, handle_cluster}
use pg_swarm.Mock.Profiles.{
  ProfileRoute, handle_profile, DeploymentRoute, handle_deployment, clone_found,
}
use pg_swarm.Mock.Collection.{find_by_id}
use pg_swarm.Mock.Catalog.{
  CatalogRoute, handle_catalog, ParamRoute, handle_param, upsert, remove_name,
}
use pg_swarm.Mock.EventRules.{EventRoute, handle_event}
use pg_swarm.Mock.RuleSets.{RuleSetRoute, handle_rule_set}
use pg_swarm.Mock.Paths.{split_slash, strip_api, part_at}
use pg_swarm.Mock.Routes.{
  Route, satellite, cluster, profile, deployment, catalog, event, rule_set, param,
}
use pg_swarm.Mock.Server.{handle, run_route, serve_path, serve}

-- What the handlers of the other collections leave alone.
abbrev SameSets : State → State → Type 0
SameSets s t = (t.event_rule_sets ≡ s.event_rule_sets) × (t.rule_set_handlers ≡ s.rule_set_handlers)

reads_body-SameSets :
    (body : Option Object) (reads : Bool) (s : State) (r : Handled)
    → SameSets s r.0
    → SameSets s (reads_body body reads s r).0
reads_body-SameSets (some b) reads s r h = h
reads_body-SameSets none true s r h = (refl, refl)
reads_body-SameSets none false s r h = h

module _ (host : Host) (req : Request) (id hid : String) (s : State) where
  satellite_SameSets : (r : SatelliteRoute) → SameSets s (handle_satellite host req id r s).0
  unfolding handle_satellite
  satellite_SameSets SatelliteRoute.labels = reads_body-SameSets req.body _ s _ (refl, refl)
  satellite_SameSets SatelliteRoute.tier_mappings = reads_body-SameSets req.body _ s _ (refl, refl)
  satellite_SameSets _ = (refl, refl)

  cluster_SameSets : (r : ClusterRoute) → SameSets s (handle_cluster req id r s).0
  unfolding handle_cluster
  cluster_SameSets ClusterRoute.pause = (refl, refl)
  cluster_SameSets _ = (refl, refl)

  clone_SameSets : (src : Option Object) → SameSets s (clone_found host req.body src s).0
  unfolding clone_found
  clone_SameSets none = (refl, refl)
  clone_SameSets (some src) = reads_body-SameSets req.body true s _ (refl, refl)

  profile_SameSets : (r : ProfileRoute) → SameSets s (handle_profile host req id r s).0
  unfolding handle_profile
  profile_SameSets ProfileRoute.clone_profile = clone_SameSets (find_by_id id s.profiles)
  profile_SameSets _ = (refl, refl)

  deployment_SameSets : (r : DeploymentRoute) → SameSets s (handle_deployment host req id r s).0
  unfolding handle_deployment
  deployment_SameSets DeploymentRoute.deployment_rules = (refl, refl)
  deployment_SameSets _ = (refl, refl)

  catalog_SameSets : (r : CatalogRoute) → SameSets s (handle_catalog host req id r s).0
  unfolding handle_catalog
  catalog_SameSets CatalogRoute.create_version = (refl, refl)
  catalog_SameSets _ = (refl, refl)

  upsert-SameSets : (found : Option Object) → SameSets s (upsert host (props req.body) found s).0
  unfolding upsert
  upsert-SameSets none = (refl, refl)
  upsert-SameSets (some old) = (refl, refl)

  remove_name-SameSets : (name : Option String) → SameSets s (remove_name name s).0
  unfolding remove_name
  remove_name-SameSets none = (refl, refl)
  remove_name-SameSets (some name) = (refl, refl)

  param_SameSets : (r : ParamRoute) → SameSets s (handle_param host req id r s).0
  unfolding handle_param
  param_SameSets ParamRoute.upsert_classification =
      reads_body-SameSets req.body _ s _ (upsert-SameSets _)
  param_SameSets ParamRoute.delete_classification = remove_name-SameSets _
  param_SameSets _ = (refl, refl)

  event_SameSets : (r : EventRoute) → SameSets s (handle_event host req id r s).0
  unfolding handle_event
  event_SameSets EventRoute.create_event_handler = reads_body-SameSets req.body _ s _ (refl, refl)
  event_SameSets _ = (refl, refl)

-- A property of the rule sets and of their handlers.
abbrev pub Keeps {ℓ} : (List Object → List (String × List Value) → Type ℓ) → State → Type ℓ
Keeps P t = P t.event_rule_sets t.rule_set_handlers

-- What the handlers of the rule sets keep, every request keeps.
module _ {ℓ} (P : List Object → List (String × List Value) → Type ℓ) (host : Host) (req : Request)
    (s : State) where
  transfer : (t : State) → SameSets s t → Keeps P s → Keeps P t
  transfer t same h = rw (same.0, same.1) h

  handle-Keeps :
      (id hid : String) (r : Route)
      → ((q : RuleSetRoute) → Keeps P s → Keeps P (handle_rule_set host req id hid q s).0)
      → Keeps P s
      → Keeps P (handle host req id hid r s).0
  unfolding handle
  handle-Keeps id hid (satellite r) k h =
      transfer (handle_satellite host req id r s).0 (satellite_SameSets host req id hid s r) h
  handle-Keeps id hid (cluster r) k h =
      transfer (handle_cluster req id r s).0 (cluster_SameSets host req id hid s r) h
  handle-Keeps id hid (profile r) k h =
      transfer (handle_profile host req id r s).0 (profile_SameSets host req id hid s r) h
  handle-Keeps id hid (deployment r) k h =
      transfer (handle_deployment host req id r s).0 (deployment_SameSets host req id hid s r) h
  handle-Keeps id hid (catalog r) k h =
      transfer (handle_catalog host req id r s).0 (catalog_SameSets host req id hid s r) h
  handle-Keeps id hid (param r) k h =
      transfer (handle_param host req id r s).0 (param_SameSets host req id hid s r) h
  handle-Keeps id hid (event r) k h =
      transfer (handle_event host req id r s).0 (event_SameSets host req id hid s r) h
  handle-Keeps id hid (rule_set r) k h = k r h

  module _
      (kept : (id hid : String) (q : RuleSetRoute)
        → Keeps P s
        → Keeps P (handle_rule_set host req id hid q s).0) where
    run_route-Keeps :
        (path : String) (route : Option Route)
        → Keeps P s
        → Keeps P (run_route host req path route s).0
    unfolding run_route
    run_route-Keeps path none h = h
    run_route-Keeps path (some r) h =
        let id = part_at (split_slash path) 2 in
        let hid = part_at (split_slash path) 4 in handle-Keeps id hid r (kept id hid) h

    serve_path-Keeps : (path : Option String) → Keeps P s → Keeps P (serve_path host req path s).0
    unfolding serve_path
    serve_path-Keeps none h = h
    serve_path-Keeps (some path) h = run_route-Keeps path _ h

    pub serve-Keeps : Keeps P s → Keeps P (serve host req s).0
    unfolding serve
    serve-Keeps h = serve_path-Keeps (strip_api req.pathname) h

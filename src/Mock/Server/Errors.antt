-- ===== src/Mock/Server/Errors.antt =====
-- What an error reply says about the state: it is the state before the request, but for one write.
use pg_swarm.Base.{
  String, ◌≡◌, refl, ap, Bool, true, false, Option, none, some, List, [], ◌⊎◌, Bool-cases,
  Option-cases, inl, inr, leb, find,
}
use pg_swarm.Js.{Object, assign}
use pg_swarm.Mock.{
  State, Host, Request, Reply, Handled, json, fault, object_or_404, props, reads_body,
}
use pg_swarm.Mock.Collection.{has_id, find_by_id, patch_by_id, patched_by_id, touch, touched}
use pg_swarm.Mock.Collection.Laws.{update_first_absent}
use pg_swarm.Mock.Satellites.{SatelliteRoute, handle_satellite, mark_connected, found_status}
use pg_swarm.Mock.Clusters.{ClusterRoute, handle_cluster}
use pg_swarm.Mock.Profiles.{
  ProfileRoute, handle_profile, DeploymentRoute, handle_deployment, clone_found,
}
use pg_swarm.Mock.Catalog.{
  CatalogRoute, handle_catalog, ParamRoute, handle_param, upsert, remove_name,
}
use pg_swarm.Mock.EventRules.{EventRoute, handle_event}
use pg_swarm.Mock.RuleSets.{
  RuleSetRoute, handle_rule_set, is_builtin, post_handler, ensure_ids, lookup_ids, put_ids,
}
use pg_swarm.Mock.Paths.{split_slash, strip_api, part_at}
use pg_swarm.Mock.Routes.{
  Route, satellite, cluster, profile, deployment, catalog, event, rule_set, param,
}
use pg_swarm.Mock.Server.{handle, run_route, serve_path, serve}

-- The reply reports a failure: a status from 400 on, or an exception.
abbrev pub is_failure : Reply → Bool
is_failure (json status _) = leb 400 status
is_failure fault = true
is_failure _ = false

-- A failure leaves the state as it was.
abbrev pub FailsClean : State → Handled → Type 0
FailsClean s (s', reply) = is_failure reply ≡ true → s' ≡ s

reads_body-FailsClean :
    (body : Option Object) (reads : Bool) (s : State) (r : Handled)
    → FailsClean s r
    → FailsClean s (reads_body body reads s r)
reads_body-FailsClean (some b) reads s r k h = k h
reads_body-FailsClean none true s r k h = refl
reads_body-FailsClean none false s r k h = k h

-- The body is null, and a rule set without a list of handlers has got an empty one.
pub record LeavesEmptyList (req : Request) (s t : State) : Type 0 where
  pub null_body : req.body ≡ none
  pub id : String
  pub missing : lookup_ids id s.rule_set_handlers ≡ none
  pub written : t ≡ record s { rule_set_handlers = put_ids id [] s.rule_set_handlers }

-- A failure leaves the state as it was, but for that one write.
abbrev pub FailsBut : Request → State → Handled → Type 0
FailsBut req s (s', reply) = is_failure reply ≡ true → (s' ≡ s) ⊎ LeavesEmptyList req s s'

patch_by_id_absent :
    (id : String) (b stamp : Object) (xs : List Object)
    → is_failure (object_or_404 (patched_by_id id b stamp xs)) ≡ true
    → patch_by_id id b stamp xs ≡ xs
unfolding patched_by_id patch_by_id find_by_id
patch_by_id_absent id b stamp xs h = elim (Option-cases (find (has_id id) xs)) [
  | inl missing ↦ update_first_absent (has_id id) (λ o. assign (assign o b) stamp) xs missing
  | inr (o, found) ↦ absurd (cc (rw found at h))
]

touch_absent :
    (id : String) (f : Object → Object) (xs : List Object)
    → leb 400 (found_status (touched id f xs)) ≡ true
    → touch id f xs ≡ xs
unfolding touched touch find_by_id
touch_absent id f xs h = elim (Option-cases (find (has_id id) xs)) [
  | inl missing ↦ update_first_absent (has_id id) f xs missing
  | inr (o, found) ↦ absurd (cc (rw found at h))
]

module _ (host : Host) (req : Request) (id : String) (s : State) where
  satellite-FailsClean : (r : SatelliteRoute) → FailsClean s (handle_satellite host req id r s)
  unfolding handle_satellite
  satellite-FailsClean SatelliteRoute.approve h =
      ap (λ xs. record s { satellites = xs }) (touch_absent id (mark_connected host) s.satellites h)
  satellite-FailsClean SatelliteRoute.labels h =
      reads_body-FailsClean req.body _ s (_, json 200 _) (λ k. cc) h
  satellite-FailsClean SatelliteRoute.tier_mappings h =
      reads_body-FailsClean req.body _ s (_, json 200 _) (λ k. cc) h
  satellite-FailsClean _ h = cc

  cluster-FailsClean : (r : ClusterRoute) → FailsClean s (handle_cluster req id r s)
  unfolding handle_cluster
  cluster-FailsClean ClusterRoute.clusters h = cc
  cluster-FailsClean _ h = cc

  clone_found_clean : (src : Option Object) → FailsClean s (clone_found host req.body src s)
  unfolding clone_found
  clone_found_clean none h = refl
  clone_found_clean (some src) h = reads_body-FailsClean req.body true s (_, json 201 _) (λ k. cc) h

  profile-FailsClean : (r : ProfileRoute) → FailsClean s (handle_profile host req id r s)
  unfolding handle_profile
  profile-FailsClean ProfileRoute.update_profile h =
      ap (λ xs. record s { profiles = xs }) (patch_by_id_absent id _ _ s.profiles h)
  profile-FailsClean ProfileRoute.clone_profile h = clone_found_clean (find_by_id id s.profiles) h
  profile-FailsClean _ h = cc

  deployment-FailsClean : (r : DeploymentRoute) → FailsClean s (handle_deployment host req id r s)
  unfolding handle_deployment
  deployment-FailsClean DeploymentRoute.update_deployment_rule h =
      ap (λ xs. record s { deployment_rules = xs }) (patch_by_id_absent id _ _ s.deployment_rules h)
  deployment-FailsClean _ h = cc

  catalog-FailsClean : (r : CatalogRoute) → FailsClean s (handle_catalog host req id r s)
  unfolding handle_catalog
  catalog-FailsClean CatalogRoute.update_version h =
      ap (λ xs. record s { postgres_versions = xs })
        (patch_by_id_absent id _ _ s.postgres_versions h)
  catalog-FailsClean CatalogRoute.update_tier h =
      ap (λ xs. record s { storage_tiers = xs }) (patch_by_id_absent id _ _ s.storage_tiers h)
  catalog-FailsClean _ h = cc

  upsert_clean : (found : Option Object) → FailsClean s (upsert host (props req.body) found s)
  unfolding upsert
  upsert_clean none h = cc
  upsert_clean (some old) h = cc

  remove_name_clean : (name : Option String) → FailsClean s (remove_name name s)
  unfolding remove_name
  remove_name_clean none h = refl
  remove_name_clean (some name) h = cc

  param-FailsClean : (r : ParamRoute) → FailsClean s (handle_param host req id r s)
  unfolding handle_param
  param-FailsClean ParamRoute.upsert_classification h =
      reads_body-FailsClean req.body _ s (upsert host (props req.body) _ s) (upsert_clean _) h
  param-FailsClean ParamRoute.delete_classification h = remove_name_clean _ h
  param-FailsClean _ h = cc

  event-FailsClean : (r : EventRoute) → FailsClean s (handle_event host req id r s)
  unfolding handle_event
  event-FailsClean EventRoute.update_event_rule h =
      ap (λ xs. record s { event_rules = xs }) (patch_by_id_absent id _ _ s.event_rules h)
  event-FailsClean EventRoute.update_event_action h =
      ap (λ xs. record s { event_actions = xs }) (patch_by_id_absent id _ _ s.event_actions h)
  event-FailsClean EventRoute.update_event_handler h =
      ap (λ xs. record s { event_handlers = xs }) (patch_by_id_absent id _ _ s.event_handlers h)
  event-FailsClean EventRoute.create_event_handler h =
      reads_body-FailsClean req.body _ s (_, json 201 _) (λ k. cc) h
  event-FailsClean _ h = cc

  post_handler-FailsBut :
      (body : Option Object) → req.body ≡ body → FailsBut req s (post_handler body id s)
  unfolding post_handler ensure_ids
  post_handler-FailsBut (some b) e h = absurd (cc h)
  post_handler-FailsBut none e h = elim (Option-cases (lookup_ids id s.rule_set_handlers)) [
    | inl missing ↦
        inr (record { null_body = e; id = id; missing = missing; written = rw missing refl })
    | inr (ids, found) ↦ inl (rw found refl)
  ]

  rule_set-FailsBut :
      (hid : String) (r : RuleSetRoute) → FailsBut req s (handle_rule_set host req id hid r s)
  unfolding handle_rule_set
  rule_set-FailsBut hid RuleSetRoute.update_rule_set h =
      inl (
        ap (λ xs. record s { event_rule_sets = xs })
          (patch_by_id_absent id _ _ s.event_rule_sets h))
  rule_set-FailsBut hid RuleSetRoute.add_handler h = post_handler-FailsBut req.body refl h
  rule_set-FailsBut hid RuleSetRoute.delete_rule_set h =
      elim (Bool-cases (is_builtin (find_by_id id s.event_rule_sets))) [
        | inl builtin ↦ inl (rw builtin refl)
        | inr free ↦ absurd (cc (rw free at h))
      ]
  rule_set-FailsBut hid _ h = cc

  handle-FailsBut : (hid : String) (r : Route) → FailsBut req s (handle host req id hid r s)
  unfolding handle
  handle-FailsBut hid (satellite r) h = inl (satellite-FailsClean r h)
  handle-FailsBut hid (cluster r) h = inl (cluster-FailsClean r h)
  handle-FailsBut hid (profile r) h = inl (profile-FailsClean r h)
  handle-FailsBut hid (deployment r) h = inl (deployment-FailsClean r h)
  handle-FailsBut hid (catalog r) h = inl (catalog-FailsClean r h)
  handle-FailsBut hid (param r) h = inl (param-FailsClean r h)
  handle-FailsBut hid (event r) h = inl (event-FailsClean r h)
  handle-FailsBut hid (rule_set r) h = rule_set-FailsBut hid r h

run_route-FailsBut :
    (host : Host) (req : Request) (path : String) (route : Option Route) (s : State)
    → FailsBut req s (run_route host req path route s)
unfolding run_route
run_route-FailsBut host req path none s h = inl refl
run_route-FailsBut host req path (some r) s h =
    handle-FailsBut host req (part_at (split_slash path) 2) s (part_at (split_slash path) 4) r h

serve_path-FailsBut :
    (host : Host) (req : Request) (path : Option String) (s : State)
    → FailsBut req s (serve_path host req path s)
unfolding serve_path
serve_path-FailsBut host req none s h = inl refl
serve_path-FailsBut host req (some path) s h = run_route-FailsBut host req path _ s h

-- A reply with a status from 400 on, or an exception of the handler, leaves the state of the
-- server as it was before the request; or else the body was null, and all that has changed is that
-- a rule set without a list of handlers has got an empty one.
pub serve_fails_clean :
    (host : Host) (req : Request) (s : State)
    → is_failure (serve host req s).1 ≡ true
    → ((serve host req s).0 ≡ s) ⊎ LeavesEmptyList req s (serve host req s).0
unfolding serve
serve_fails_clean host req s h = serve_path-FailsBut host req (strip_api req.pathname) s h

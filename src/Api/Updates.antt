-- ===== src/Api/Updates.antt =====
-- What the client's calls that create and update do to the server's collections.
use pg_swarm.Base.{String, ◌≡◌, refl, ap, ◌∙◌, false, List, [], if◌then◌else◌, ◌==◌}
use pg_swarm.Js.{Object, has}
use pg_swarm.Js.Json.{json_object}
use pg_swarm.Mock.{State, Host, object_or_404}
use pg_swarm.Mock.Collection.{find_by_id, patch_by_id, patched_by_id}
use pg_swarm.Mock.Collection.Laws.{find_by_id-patch_by_id}
use pg_swarm.Mock.Profiles.{handle_profile, handle_deployment, updated}
use pg_swarm.Mock.Catalog.{handle_catalog}
use pg_swarm.Mock.EventRules.{handle_event}
use pg_swarm.Mock.RuleSets.{handle_rule_set}
use pg_swarm.Mock.Server.{handle}
use pg_swarm.Api.Calls.{
  Call, profile_call, deployment_call, catalog_call, event_call, rule_set_call, request_of, wire,
}
use pg_swarm.Api.Paths.{IsId}
use pg_swarm.Api.Profiles.{ProfileCall, profile_request}
use pg_swarm.Api.Deployments.{DeploymentCall, deployment_request}
use pg_swarm.Api.Catalog.{CatalogCall, catalog_request}
use pg_swarm.Api.Events.{EventCall, event_request}
use pg_swarm.Api.RuleSets.{RuleSetCall, rule_set_request}
use pg_swarm.Api.Effects.{after, reply, after-eq-answer, reply-eq-answer}

-- The collections whose objects the client can update by id.
pub data Updatable : Type 0 where
  profiles deployment_rules postgres_versions storage_tiers : Updatable
  event_rules event_actions event_handlers event_rule_sets : Updatable

unfoldable pub updatable : Updatable → State → List Object
updatable profiles s = s.profiles
updatable deployment_rules s = s.deployment_rules
updatable postgres_versions s = s.postgres_versions
updatable storage_tiers s = s.storage_tiers
updatable event_rules s = s.event_rules
updatable event_actions s = s.event_actions
updatable event_handlers s = s.event_handlers
updatable event_rule_sets s = s.event_rule_sets

unfoldable pub update_call : Updatable → String → Object → Call
update_call profiles id b = profile_call (ProfileCall.update_profile id b)
update_call deployment_rules id b = deployment_call (DeploymentCall.update_deployment_rule id b)
update_call postgres_versions id b = catalog_call (CatalogCall.update_postgres_version id b)
update_call storage_tiers id b = catalog_call (CatalogCall.update_storage_tier id b)
update_call event_rules id b = event_call (EventCall.update_event_rule id b)
update_call event_actions id b = event_call (EventCall.update_event_action id b)
update_call event_handlers id b = event_call (EventCall.update_event_handler id b)
update_call event_rule_sets id b = rule_set_call (RuleSetCall.update_event_rule_set id b)

-- What the server writes besides the body.
unfoldable pub stamp_of : Updatable → Host → Object
stamp_of profiles host = updated (host.iso 0)
stamp_of deployment_rules host = updated (host.iso 0)
stamp_of storage_tiers host = updated (host.iso 0)
stamp_of event_rule_sets host = updated (host.iso 0)
stamp_of _ host = []

stamp_of-has_id : (c : Updatable) (host : Host) → has (stamp_of c host) "id" ≡ false
unfolding stamp_of has
stamp_of-has_id profiles host = refl
stamp_of-has_id _ host = refl

module _ (host : Host) (id : String) (b : Object) (s : State) (h : IsId id) where
  update_entries :
      (c : Updatable)
      → (updatable c (after host (update_call c id b) s)
          ≡ patch_by_id id (json_object b) (stamp_of c host) (updatable c s))
        × (reply host (update_call c id b) s
            ≡ object_or_404 (patched_by_id id (json_object b) (stamp_of c host) (updatable c s)))
  unfolding update_call updatable stamp_of handle handle_profile handle_deployment handle_catalog
      handle_event handle_rule_set wire request_of profile_request deployment_request
      catalog_request event_request rule_set_request
  update_entries profiles =
      let c = profile_call (ProfileCall.update_profile id b) in
      rw (after-eq-answer host c s h, reply-eq-answer host c s h) (refl, refl)
  update_entries deployment_rules =
      let c = deployment_call (DeploymentCall.update_deployment_rule id b) in
      rw (after-eq-answer host c s h, reply-eq-answer host c s h) (refl, refl)
  update_entries postgres_versions =
      let c = catalog_call (CatalogCall.update_postgres_version id b) in
      rw (after-eq-answer host c s h, reply-eq-answer host c s h) (refl, refl)
  update_entries storage_tiers =
      let c = catalog_call (CatalogCall.update_storage_tier id b) in
      rw (after-eq-answer host c s h, reply-eq-answer host c s h) (refl, refl)
  update_entries event_rules =
      let c = event_call (EventCall.update_event_rule id b) in
      rw (after-eq-answer host c s h, reply-eq-answer host c s h) (refl, refl)
  update_entries event_actions =
      let c = event_call (EventCall.update_event_action id b) in
      rw (after-eq-answer host c s h, reply-eq-answer host c s h) (refl, refl)
  update_entries event_handlers =
      let c = event_call (EventCall.update_event_handler id b) in
      rw (after-eq-answer host c s h, reply-eq-answer host c s h) (refl, refl)
  update_entries event_rule_sets =
      let c = rule_set_call (RuleSetCall.update_event_rule_set id b) in
      rw (after-eq-answer host c s h, reply-eq-answer host c s h) (refl, refl)

-- After an update whose id is not empty and made of ASCII letters, digits, '-' and '_', and whose
-- body, as its JSON text keeps it, does not write the id, the object under the id is the old one
-- with the properties that the JSON text keeps and the server's stamp assigned to it,
-- the reply is that object, or 404 where there is none, and what is found under every other id is
-- what was found before.
pub update_call-find_by_id :
    (host : Host) (c : Updatable) (id : String) (b : Object) (s : State)
    → IsId id
    → has (json_object b) "id" ≡ false
    → (reply host (update_call c id b) s
        ≡ object_or_404 (patched_by_id id (json_object b) (stamp_of c host) (updatable c s)))
      × ((j : String)
          → find_by_id j (updatable c (after host (update_call c id b) s)) ≡ (
              if id == j
              then patched_by_id id (json_object b) (stamp_of c host) (updatable c s)
              else find_by_id j (updatable c s)))
update_call-find_by_id host c id b s h unwritten = (
  (update_entries host id b s h c).1,
  λ j.
      ap (find_by_id j) (update_entries host id b s h c).0
      ∙ find_by_id-patch_by_id id j (json_object b) (stamp_of c host) (updatable c s) unwritten
          (stamp_of-has_id c host),
)

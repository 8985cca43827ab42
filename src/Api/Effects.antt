-- ===== src/Api/Effects.antt =====
-- What the client's calls do to the server's collections, seen through later calls.
use pg_swarm.Base.{
  ℕ, String, ◌≡◌, refl, ap, ◌∙◌, true, Option, none, some, List, [], ◌∷◌, if◌then◌else◌, ◌==◌, map,
}
use pg_swarm.Js.{bool, Object, get}
use pg_swarm.Js.Laws.{get-set}
use mathlib.Core.Option
use pg_swarm.Js.Text.{to_text}
use pg_swarm.Api.{Response, ApiError, rejected, finish_request}
use pg_swarm.Mock.{State, Host, Reply, json, error_text}
use pg_swarm.Mock.Collection.{has_id, find_by_id, without_id}
use pg_swarm.Mock.Collection.Laws.{find_by_id-without_id}
use pg_swarm.Mock.Satellites.{handle_satellite}
use pg_swarm.Mock.Profiles.{handle_profile, handle_deployment}
use pg_swarm.Mock.Catalog.{handle_catalog, mark_default}
use pg_swarm.Mock.EventRules.{handle_event}
use pg_swarm.Mock.RuleSets.{handle_rule_set, is_builtin}
use pg_swarm.Mock.Server.{handle, serve}
use pg_swarm.Api.Paths.{IsId}
use pg_swarm.Api.Satellites.{SatelliteCall}
use pg_swarm.Api.Profiles.{ProfileCall}
use pg_swarm.Api.Deployments.{DeploymentCall}
use pg_swarm.Api.Catalog.{CatalogCall}
use pg_swarm.Api.Events.{EventCall}
use pg_swarm.Api.RuleSets.{RuleSetCall}
use pg_swarm.Api.Calls.{
  Call, satellite_call, profile_call, deployment_call, catalog_call, event_call, rule_set_call,
  request_of, wire, answer, SafeCall, serve-request_of,
}

-- The server's state after a call of the client, and its reply.
unfoldable pub after : Host → Call → State → State
after host c s = (serve host (wire (request_of c)) s).0

unfoldable pub reply : Host → Call → State → Reply
reply host c s = (serve host (wire (request_of c)) s).1

pub after-eq-answer :
    (host : Host) (c : Call) (s : State) → SafeCall c → after host c s ≡ (answer host c s).0
unfolding after
after-eq-answer host c s h = ap (λ r. r.0) (serve-request_of host c s h)

pub reply-eq-answer :
    (host : Host) (c : Call) (s : State) → SafeCall c → reply host c s ≡ (answer host c s).1
unfolding reply
reply-eq-answer host c s h = ap (λ r. r.1) (serve-request_of host c s h)

-- The collections from which the client can delete by id, without a condition.
pub data Collection : Type 0 where
  satellites profiles deployment_rules postgres_versions postgres_variants : Collection
  storage_tiers event_rules event_actions event_handlers : Collection

unfoldable pub entries : Collection → State → List Object
entries satellites s = s.satellites
entries profiles s = s.profiles
entries deployment_rules s = s.deployment_rules
entries postgres_versions s = s.postgres_versions
entries postgres_variants s = s.postgres_variants
entries storage_tiers s = s.storage_tiers
entries event_rules s = s.event_rules
entries event_actions s = s.event_actions
entries event_handlers s = s.event_handlers

-- The call that deletes from the collection; of a satellite it is the rejection.
unfoldable pub delete_call : Collection → String → Call
delete_call satellites id = satellite_call (SatelliteCall.reject id)
delete_call profiles id = profile_call (ProfileCall.delete_profile id)
delete_call deployment_rules id = deployment_call (DeploymentCall.delete_deployment_rule id)
delete_call postgres_versions id = catalog_call (CatalogCall.delete_postgres_version id)
delete_call postgres_variants id = catalog_call (CatalogCall.delete_postgres_variant id)
delete_call storage_tiers id = catalog_call (CatalogCall.delete_storage_tier id)
delete_call event_rules id = event_call (EventCall.delete_event_rule id)
delete_call event_actions id = event_call (EventCall.delete_event_action id)
delete_call event_handlers id = event_call (EventCall.delete_event_handler id)

delete_entries :
    (host : Host) (c : Collection) (id : String) (s : State)
    → IsId id
    → entries c (after host (delete_call c id) s) ≡ without_id id (entries c s)
unfolding delete_call entries handle handle_satellite handle_profile handle_deployment
    handle_catalog handle_event
delete_entries host satellites id s h =
    rw (after-eq-answer host (satellite_call (SatelliteCall.reject id)) s h) refl
delete_entries host profiles id s h =
    rw (after-eq-answer host (profile_call (ProfileCall.delete_profile id)) s h) refl
delete_entries host deployment_rules id s h =
    rw (after-eq-answer host (deployment_call (DeploymentCall.delete_deployment_rule id)) s h) refl
delete_entries host postgres_versions id s h =
    rw (after-eq-answer host (catalog_call (CatalogCall.delete_postgres_version id)) s h) refl
delete_entries host postgres_variants id s h =
    rw (after-eq-answer host (catalog_call (CatalogCall.delete_postgres_variant id)) s h) refl
delete_entries host storage_tiers id s h =
    rw (after-eq-answer host (catalog_call (CatalogCall.delete_storage_tier id)) s h) refl
delete_entries host event_rules id s h =
    rw (after-eq-answer host (event_call (EventCall.delete_event_rule id)) s h) refl
delete_entries host event_actions id s h =
    rw (after-eq-answer host (event_call (EventCall.delete_event_action id)) s h) refl
delete_entries host event_handlers id s h =
    rw (after-eq-answer host (event_call (EventCall.delete_event_handler id)) s h) refl

-- After a call that deletes from a collection an id that is not empty and made of ASCII letters,
-- digits, '-' and '_', the id is not found there, and what is found under every other id is what was found before.
pub delete_call-find_by_id :
    (host : Host) (c : Collection) (id : String) (s : State)
    → IsId id
    → (j : String)
    → find_by_id j (entries c (after host (delete_call c id) s))
      ≡ (if id == j then none else find_by_id j (entries c s))
delete_call-find_by_id host c id s h j =
    ap (find_by_id j) (delete_entries host c id s h) ∙ find_by_id-without_id id j (entries c s)

set_default-get :
    (id k : String) (v : Object)
    → get (mark_default id v) k ≡ (if "is_default" == k then bool (has_id id v) else get v k)
unfolding mark_default
set_default-get id k v = get-set v "is_default" k _

-- What one version looks like after `setDefaultPostgresVersion(id)`.
abbrev pub DefaultMarked : String → List Object → List Object → Type 0
DefaultMarked id [] [] = Unit
DefaultMarked id (v ∷ vs) (w ∷ ws) =
    ((k : String) → get w k ≡ (if "is_default" == k then bool (has_id id v) else get v k))
    × DefaultMarked id vs ws
DefaultMarked id _ _ = ⊥

map-DefaultMarked :
    (id : String) (vs : List Object) → DefaultMarked id vs (map (mark_default id) vs)
unfolding has_id
map-DefaultMarked id [] = tt
map-DefaultMarked id (v ∷ vs) = ((λ k. set_default-get id k v), map-DefaultMarked id vs)

-- After `setDefaultPostgresVersion(id)`, for an id that is not empty and made of ASCII letters,
-- digits, '-' and '_', each version is a default exactly when its id was the given one, and no other
-- property of a version has changed; no version is lost and none is new, and nothing but the
-- versions has changed in the server's state.
pub set_default-DefaultMarked :
    (host : Host) (id : String) (s : State)
    → IsId id
    → let later = after host (catalog_call (CatalogCall.set_default_postgres_version id)) s in
      DefaultMarked id s.postgres_versions later.postgres_versions
      × (later ≡ record s { postgres_versions = later.postgres_versions })
unfolding handle handle_catalog
set_default-DefaultMarked host id s h =
    rw (after-eq-answer host (catalog_call (CatalogCall.set_default_postgres_version id)) s h)
      (map-DefaultMarked id s.postgres_versions, refl)

-- What `fetch` resolves to for a reply of the server; none for an event stream, for random logs and
-- for what the server does not answer. The text of a status is the host's.
abbrev pub respond : (ℕ → String) → Reply → Option Response
respond text (json status p) =
    some (record { status = status; status_text = text status; parsed = some p })
respond text _ = none

abbrev pub builtin_error : ApiError
builtin_error = record {
  message = "cannot delete built-in rule set";
  status = 400;
  body = error_text "cannot delete built-in rule set";
}

-- `deleteEventRuleSet(id)` of a built-in rule set whose id is not empty and made of ASCII letters,
-- digits, '-' and '_' rejects with status 400 and the server's message, and the server's state stays.
pub delete_builtin_rejected :
    (host : Host) (text : ℕ → String) (id : String) (s : State)
    → IsId id
    → is_builtin (find_by_id id s.event_rule_sets) ≡ true
    → (Option.map finish_request
          (respond text (reply host (rule_set_call (RuleSetCall.delete_event_rule_set id)) s))
        ≡ some (rejected builtin_error))
      × (after host (rule_set_call (RuleSetCall.delete_event_rule_set id)) s ≡ s)
unfolding handle handle_rule_set finish_request get to_text
delete_builtin_rejected host text id s h builtin =
    rw
      (
        after-eq-answer host (rule_set_call (RuleSetCall.delete_event_rule_set id)) s h,
        reply-eq-answer host (rule_set_call (RuleSetCall.delete_event_rule_set id)) s h,
        builtin,
      )
      (refl, refl)

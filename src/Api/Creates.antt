-- ===== src/Api/Creates.antt =====
-- What the client's calls that create an object do to the server's collections.
use pg_swarm.Base.{
  String, ◌≡◌, refl, Bool-cases, inl, inr, if◌then◌else◌, ◌∙◌, true, false, List, [], ◌∷◌, ◌++◌,
}
use pg_swarm.Js.{undefined, str, bool, Object, get, has, assign}
use pg_swarm.Js.Text.{◌⧺◌}
use pg_swarm.Js.Laws.{HasDistinctKeys, get-assign_absent, get-assign_present}
use pg_swarm.Js.Json.{
  is_undefined, json_value, json_object, json_object-HasDistinctKeys, has-json_object,
  get-json_object,
}
use pg_swarm.Mock.{State, Host, json, object}
use pg_swarm.Mock.Collection.{spread}
use pg_swarm.Mock.Profiles.{handle_profile, handle_deployment, stamps}
use pg_swarm.Mock.Catalog.{handle_catalog}
use pg_swarm.Mock.EventRules.{handle_event, name_or_empty, find_value}
use pg_swarm.Mock.RuleSets.{handle_rule_set}
use pg_swarm.Mock.Server.{handle}
use pg_swarm.Api.Calls.{
  Call, profile_call, deployment_call, catalog_call, event_call, rule_set_call, request_of, wire,
}
use pg_swarm.Api.Profiles.{ProfileCall, profile_request}
use pg_swarm.Api.Deployments.{DeploymentCall, deployment_request}
use pg_swarm.Api.Catalog.{CatalogCall, catalog_request}
use pg_swarm.Api.Events.{EventCall, event_request}
use pg_swarm.Api.RuleSets.{RuleSetCall, rule_set_request}
use pg_swarm.Api.Effects.{after, reply, after-eq-answer, reply-eq-answer}

-- The collections in which the client can create an object.
pub data Creatable : Type 0 where
  profiles deployment_rules postgres_versions postgres_variants storage_tiers : Creatable
  event_rules event_actions event_handlers event_rule_sets : Creatable

unfoldable pub creatable : Creatable → State → List Object
creatable profiles s = s.profiles
creatable deployment_rules s = s.deployment_rules
creatable postgres_versions s = s.postgres_versions
creatable postgres_variants s = s.postgres_variants
creatable storage_tiers s = s.storage_tiers
creatable event_rules s = s.event_rules
creatable event_actions s = s.event_actions
creatable event_handlers s = s.event_handlers
creatable event_rule_sets s = s.event_rule_sets

unfoldable pub create_call : Creatable → Object → Call
create_call profiles b = profile_call (ProfileCall.create_profile b)
create_call deployment_rules b = deployment_call (DeploymentCall.create_deployment_rule b)
create_call postgres_versions b = catalog_call (CatalogCall.create_postgres_version b)
create_call postgres_variants b = catalog_call (CatalogCall.create_postgres_variant b)
create_call storage_tiers b = catalog_call (CatalogCall.create_storage_tier b)
create_call event_rules b = event_call (EventCall.create_event_rule b)
create_call event_actions b = event_call (EventCall.create_event_action b)
create_call event_handlers b = event_call (EventCall.create_event_handler b)
create_call event_rule_sets b = rule_set_call (RuleSetCall.create_event_rule_set b)

unfoldable pub id_prefix : Creatable → String
id_prefix profiles = "prof-"
id_prefix deployment_rules = "rule-"
id_prefix postgres_versions = "pgv-"
id_prefix postgres_variants = "pgvar-"
id_prefix storage_tiers = "tier-"
id_prefix event_rules = "er-"
id_prefix event_actions = "ea-"
id_prefix event_handlers = "eh-"
id_prefix event_rule_sets = "rs-"

-- The properties that the server gives to a new object, which the body can override.
defaults_of : Creatable → Host → Object → State → Object
defaults_of profiles host b s =
    ("id", str ("prof-" ⧺ host.date_now)) ∷ stamps host ++ ("locked", bool false) ∷ []
defaults_of deployment_rules host b s = ("id", str ("rule-" ⧺ host.date_now)) ∷ stamps host
defaults_of postgres_versions host b s =
    ("id", str ("pgv-" ⧺ host.date_now)) ∷ ("is_default", bool false) ∷ []
defaults_of postgres_variants host b s = ("id", str ("pgvar-" ⧺ host.date_now)) ∷ []
defaults_of storage_tiers host b s = ("id", str ("tier-" ⧺ host.date_now)) ∷ stamps host
defaults_of event_rules host b s =
    ("id", str ("er-" ⧺ host.date_now)) ∷ ("builtin", bool false) ∷ ("enabled", bool true) ∷ []
defaults_of event_actions host b s = ("id", str ("ea-" ⧺ host.date_now)) ∷ []
defaults_of event_handlers host b s =
    ("id", str ("eh-" ⧺ host.date_now))
    ∷ ("event_rule_name", name_or_empty (find_value (get b "event_rule_id") s.event_rules))
    ∷ ("event_action_name", name_or_empty (find_value (get b "event_action_id") s.event_actions))
    ∷ ("enabled", bool true)
    ∷ []
defaults_of event_rule_sets host b s =
    ("id", str ("rs-" ⧺ host.date_now)) ∷ stamps host ++ ("builtin", bool false) ∷ []

defaults_of-get_id :
    (c : Creatable) (host : Host) (b : Object) (s : State)
    → get (assign [] (defaults_of c host b s)) "id" ≡ str (id_prefix c ⧺ host.date_now)
unfolding defaults_of id_prefix get assign
defaults_of-get_id profiles host b s = refl
defaults_of-get_id deployment_rules host b s = refl
defaults_of-get_id postgres_versions host b s = refl
defaults_of-get_id postgres_variants host b s = refl
defaults_of-get_id storage_tiers host b s = refl
defaults_of-get_id event_rules host b s = refl
defaults_of-get_id event_actions host b s = refl
defaults_of-get_id event_handlers host b s = refl
defaults_of-get_id event_rule_sets host b s = refl

module _ (host : Host) (b : Object) (s : State) where
  create_entries :
      (c : Creatable)
      → (creatable c (after host (create_call c b) s)
          ≡ creatable c s ++ spread (defaults_of c host (json_object b) s) (json_object b) ∷ [])
        × (reply host (create_call c b) s
            ≡ json 201 (object (spread (defaults_of c host (json_object b) s) (json_object b))))
  unfolding create_call creatable defaults_of handle handle_profile handle_deployment handle_catalog
      handle_event handle_rule_set wire request_of profile_request deployment_request
      catalog_request event_request rule_set_request
  create_entries profiles =
      let c = profile_call (ProfileCall.create_profile b) in
      rw (after-eq-answer host c s tt, reply-eq-answer host c s tt) (refl, refl)
  create_entries deployment_rules =
      let c = deployment_call (DeploymentCall.create_deployment_rule b) in
      rw (after-eq-answer host c s tt, reply-eq-answer host c s tt) (refl, refl)
  create_entries postgres_versions =
      let c = catalog_call (CatalogCall.create_postgres_version b) in
      rw (after-eq-answer host c s tt, reply-eq-answer host c s tt) (refl, refl)
  create_entries postgres_variants =
      let c = catalog_call (CatalogCall.create_postgres_variant b) in
      rw (after-eq-answer host c s tt, reply-eq-answer host c s tt) (refl, refl)
  create_entries storage_tiers =
      let c = catalog_call (CatalogCall.create_storage_tier b) in
      rw (after-eq-answer host c s tt, reply-eq-answer host c s tt) (refl, refl)
  create_entries event_rules =
      let c = event_call (EventCall.create_event_rule b) in
      rw (after-eq-answer host c s tt, reply-eq-answer host c s tt) (refl, refl)
  create_entries event_actions =
      let c = event_call (EventCall.create_event_action b) in
      rw (after-eq-answer host c s tt, reply-eq-answer host c s tt) (refl, refl)
  create_entries event_handlers =
      let c = event_call (EventCall.create_event_handler b) in
      rw (after-eq-answer host c s tt, reply-eq-answer host c s tt) (refl, refl)
  create_entries event_rule_sets =
      let c = rule_set_call (RuleSetCall.create_event_rule_set b) in
      rw (after-eq-answer host c s tt, reply-eq-answer host c s tt) (refl, refl)

get-assign :
    (b o : Object) (k : String)
    → HasDistinctKeys b
    → get (assign o b) k ≡ (if has b k then get b k else get o k)
get-assign b o k d = elim (Bool-cases (has b k)) [
  | inl given ↦ rw given (get-assign_present b o k d given)
  | inr absent ↦ rw absent (get-assign_absent b o k absent)
]

-- A spread of defaults and of what the JSON text keeps of a body.
get-assign_json :
    (b o : Object) (k : String)
    → HasDistinctKeys b
    → get (assign o (json_object b)) k
      ≡ (if is_undefined (get b k) then get o k else json_value (get b k))
get-assign_json b o k d =
    get-assign (json_object b) o k (json_object-HasDistinctKeys b d)
    ∙ (elim (Bool-cases (is_undefined (get b k))) [
      | inl gone ↦ rw (has-json_object b k d, gone) refl
      | inr given ↦ rw (has-json_object b k d, given, get-json_object b k given d) refl
    ])

-- The properties that are given come out as JSON keeps them.
given_by :
    (b o : Object) (k : String)
    → HasDistinctKeys b
    → (if is_undefined (get b k) then undefined else get (assign o (json_object b)) k)
      ≡ (if is_undefined (get b k) then undefined else json_value (get b k))
given_by b o k d = elim (Bool-cases (is_undefined (get b k))) [
  | inl gone ↦ rw gone refl
  | inr given ↦ rw given (get-assign_json b o k d ∙ rw given refl)
]

-- A new object stands at the end of its collection.
pub record IsCreated (host : Host) (c : Creatable) (b : Object) (s : State) (o : Object)
    : Type 0 where
  pub listed : creatable c (after host (create_call c b) s) ≡ creatable c s ++ o ∷ []
  pub replied : reply host (create_call c b) s ≡ json 201 (object o)
  pub given :
      (k : String)
      → (if is_undefined (get b k) then undefined else get o k)
        ≡ (if is_undefined (get b k) then undefined else json_value (get b k))
  pub numbered : get o "id" ≡ (
      if is_undefined (get b "id")
      then str (id_prefix c ⧺ host.date_now)
      else json_value (get b "id"))

-- A call that creates an object from a body in which no property stands twice puts it at the end
-- of its collection and replies with it and 201; it has every property of the body that is not
-- undefined, as the JSON text keeps it, and an id made of the collection's prefix and the time if
-- the body's id is undefined or missing.
pub create_call-IsCreated :
    (host : Host) (c : Creatable) (b : Object) (s : State)
    → HasDistinctKeys b
    → (o : Object) × IsCreated host c b s o
unfolding spread
create_call-IsCreated host c b s d =
    let defaults = defaults_of c host (json_object b) s in
    (
      spread defaults (json_object b),
      record {
        listed = (create_entries host b s c).0;
        replied = (create_entries host b s c).1;
        given = λ k. given_by b (assign [] defaults) k d;
        numbered =
            get-assign_json b (assign [] defaults) "id" d
            ∙ (rw (defaults_of-get_id c host (json_object b) s) refl);
      },
    )

-- ===== src/Mock/Profiles.antt =====
-- The profile and deployment rule routes of mock/plugin.js.
use pg_swarm.Base.{String, Option, none, some, [], ◌∷◌, ◌++◌, true, false, filter}
use pg_swarm.Js.{str, bool, Object, get, assign, or_else, is_str}
use pg_swarm.Js.Text.{◌⧺◌, to_text}
use pg_swarm.Mock.{
  State, Host, Request, Handled, json, list, object, ok_true, error_text, object_or_error,
  object_or_404, props, reads_body,
}
use pg_swarm.Mock.Collection.{find_by_id, without_id, patch_by_id, patched_by_id, spread}

pub data ProfileRoute : Type 0 where
  profiles create_profile update_profile delete_profile clone_profile : ProfileRoute

-- `{ updated_at: new Date().toISOString() }`
abbrev pub updated : String → Object
updated at = ("updated_at", str at) ∷ []

-- `created_at` and `updated_at` of a new object
abbrev pub stamps : Host → Object
stamps host = ("created_at", str (host.iso 0)) ∷ ("updated_at", str (host.iso 1)) ∷ []

abbrev pub new_profile : Host → Object → Object
new_profile host b =
    spread (("id", str ("prof-" ⧺ host.date_now)) ∷ stamps host ++ ("locked", bool false) ∷ []) b

-- `{ ...src, id, name: b.name || src.name + '-copy', created_at, updated_at }`
unfoldable pub clone_of : Host → Object → Object → Object
clone_of host b src = assign src (
    ("id", str ("prof-" ⧺ host.date_now))
    ∷ ("name", or_else (get b "name") (str (to_text (get src "name") ⧺ "-copy")))
    ∷ stamps host)

unfoldable pub clone_found : Host → Option Object → Option Object → State → Handled
clone_found host b none s = (s, json 404 (error_text "not found"))
clone_found host b (some src) s =
    let clone = clone_of host (props b) src in
    reads_body b true s (record s { profiles = s.profiles ++ clone ∷ [] }, json 201 (object clone))

unfoldable pub handle_profile : Host → Request → String → ProfileRoute → State → Handled
unfolding clone_found
handle_profile host req id profiles s = (s, json 200 (list s.profiles))
handle_profile host req id create_profile s =
    let p = new_profile host (props req.body) in
    (record s { profiles = s.profiles ++ p ∷ [] }, json 201 (object p))
handle_profile host req id update_profile s = (
  record s { profiles = patch_by_id id (props req.body) (updated (host.iso 0)) s.profiles },
  object_or_404 (patched_by_id id (props req.body) (updated (host.iso 0)) s.profiles),
)
handle_profile host req id delete_profile s =
    (record s { profiles = without_id id s.profiles }, json 200 ok_true)
handle_profile host req id clone_profile s = clone_found host req.body (find_by_id id s.profiles) s

pub data DeploymentRoute : Type 0 where
  deployment_rules create_deployment_rule get_deployment_rule : DeploymentRoute
  update_deployment_rule delete_deployment_rule deployment_rule_clusters : DeploymentRoute

unfoldable pub handle_deployment : Host → Request → String → DeploymentRoute → State → Handled
handle_deployment host req id deployment_rules s = (s, json 200 (list s.deployment_rules))
handle_deployment host req id create_deployment_rule s =
    let r = spread (("id", str ("rule-" ⧺ host.date_now)) ∷ stamps host) (props req.body) in
    (record s { deployment_rules = s.deployment_rules ++ r ∷ [] }, json 201 (object r))
handle_deployment host req id get_deployment_rule s =
    (s, json 200 (object_or_error (find_by_id id s.deployment_rules)))
handle_deployment host req id update_deployment_rule s = (
  record s {
    deployment_rules = patch_by_id id (props req.body) (updated (host.iso 0)) s.deployment_rules;
  },
  object_or_404 (patched_by_id id (props req.body) (updated (host.iso 0)) s.deployment_rules),
)
handle_deployment host req id delete_deployment_rule s =
    (record s { deployment_rules = without_id id s.deployment_rules }, json 200 ok_true)
handle_deployment host req id deployment_rule_clusters s =
    (s, json 200 (list (filter (λ c. is_str (get c "deployment_rule_id") id) s.clusters)))

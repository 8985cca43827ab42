-- ===== src/Api/Deployments.antt =====
-- Deployment rule calls of the `api` object of dashboard/src/api.js: the request that each sends, the route of
-- mock/plugin.js that is meant to answer it, and that the server finds that route.
use pg_swarm.Base.{String, refl, Option, some, []}
use pg_swarm.Js.{Object}
use pg_swarm.Js.Text.{◌⧺◌}
use pg_swarm.Mock.{get, post, put, delete}
use pg_swarm.Mock.Paths.{matches, split_slash}
use pg_swarm.Mock.Routes.{Route, deployment, route_table, first_route, fires}
use pg_swarm.Api.{Sent, sent, no_body}
use pg_swarm.Api.Paths.{no_slash, IsId, is_plain-Fixed, Located, locate, split_id, split_verb}
use pg_swarm.Mock.Profiles.{DeploymentRoute}

pub data DeploymentCall : Type 0 where
  deployment_rules : DeploymentCall
  create_deployment_rule : (body : Object) → DeploymentCall
  get_deployment_rule : (id : String) → DeploymentCall
  update_deployment_rule : (id : String) → (body : Object) → DeploymentCall
  delete_deployment_rule : (id : String) → DeploymentCall
  deployment_rule_clusters : (id : String) → DeploymentCall

unfoldable pub deployment_request : DeploymentCall → Sent
deployment_request deployment_rules = sent get ("/deployment-rules") [] no_body
deployment_request (create_deployment_rule body) = sent post ("/deployment-rules") [] body
deployment_request (get_deployment_rule id) = sent get ("/deployment-rules/" ⧺ id) [] no_body
deployment_request (update_deployment_rule id body) = sent put ("/deployment-rules/" ⧺ id) [] body
deployment_request (delete_deployment_rule id) = sent delete ("/deployment-rules/" ⧺ id) [] no_body
deployment_request (deployment_rule_clusters id) =
    sent get ("/deployment-rules/" ⧺ id ⧺ "/clusters") [] no_body

-- The route that the call is meant for; none where the server has no such route.
abbrev pub deployment_route : DeploymentCall → Option Route
deployment_route deployment_rules = some (deployment DeploymentRoute.deployment_rules)
deployment_route (create_deployment_rule _) =
    some (deployment DeploymentRoute.create_deployment_rule)
deployment_route (get_deployment_rule _) = some (deployment DeploymentRoute.get_deployment_rule)
deployment_route (update_deployment_rule _ _) =
    some (deployment DeploymentRoute.update_deployment_rule)
deployment_route (delete_deployment_rule _) =
    some (deployment DeploymentRoute.delete_deployment_rule)
deployment_route (deployment_rule_clusters _) =
    some (deployment DeploymentRoute.deployment_rule_clusters)

-- The ids that the call puts into the path: the parts with the indices 2 and 4.
abbrev pub deployment_ids : DeploymentCall → String × String
deployment_ids deployment_rules = ("", "")
deployment_ids (create_deployment_rule _) = ("", "")
deployment_ids (get_deployment_rule id) = (id, "")
deployment_ids (update_deployment_rule id _) = (id, "")
deployment_ids (delete_deployment_rule id) = (id, "")
deployment_ids (deployment_rule_clusters id) = (id, "")

-- The ids reach the server as they are.
abbrev pub SafeDeploymentCall : DeploymentCall → Type 0
SafeDeploymentCall deployment_rules = Unit
SafeDeploymentCall (create_deployment_rule _) = Unit
SafeDeploymentCall (get_deployment_rule id) = IsId id
SafeDeploymentCall (update_deployment_rule id _) = IsId id
SafeDeploymentCall (delete_deployment_rule id) = IsId id
SafeDeploymentCall (deployment_rule_clusters id) = IsId id

pub deployment_request-Located :
    (c : DeploymentCall)
    → SafeDeploymentCall c
    → Located (deployment_request c) (deployment_ids c) (deployment_route c)
unfolding deployment_request no_slash split_slash route_table first_route matches fires
deployment_request-Located deployment_rules h = locate _ _ _ _ refl refl refl refl
deployment_request-Located (create_deployment_rule body) h = locate _ _ _ _ refl refl refl refl
deployment_request-Located (get_deployment_rule id) h =
    locate _ _ _ _ (split_id "deployment-rules" id refl (is_plain-Fixed _ h.0)) (rw h.1 refl) refl
      refl
deployment_request-Located (update_deployment_rule id body) h =
    locate _ _ _ _ (split_id "deployment-rules" id refl (is_plain-Fixed _ h.0)) (rw h.1 refl) refl
      refl
deployment_request-Located (delete_deployment_rule id) h =
    locate _ _ _ _ (split_id "deployment-rules" id refl (is_plain-Fixed _ h.0)) (rw h.1 refl) refl
      refl
deployment_request-Located (deployment_rule_clusters id) h =
    locate _ _ _ _ (split_verb "deployment-rules" id "clusters" refl (is_plain-Fixed _ h.0) refl)
      (rw h.1 refl) refl refl

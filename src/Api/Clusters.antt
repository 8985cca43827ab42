-- ===== src/Api/Clusters.antt =====
-- Cluster calls of the `api` object of dashboard/src/api.js: the request that each sends, the route of
-- mock/plugin.js that is meant to answer it, and that the server finds that route.
use pg_swarm.Base.{ℕ, String, refl, Bool, true, Option, none, some, [], ◌∷◌}
use pg_swarm.Js.{Value, num, bool}
use pg_swarm.Js.Text.{◌⧺◌}
use pg_swarm.Mock.{get, post, delete}
use pg_swarm.Mock.Paths.{matches, split_slash}
use pg_swarm.Mock.Routes.{Route, cluster, route_table, first_route, fires}
use pg_swarm.Api.{Sent, sent, no_body, number_or}
use pg_swarm.Api.Paths.{
  no_slash, IsId, is_plain-Fixed, Located, locate, split_id, split_verb, split_verb_verb,
}
use pg_swarm.Mock.Clusters.{ClusterRoute}

pub data ClusterCall : Type 0 where
  clusters : ClusterCall
  health : ClusterCall
  events : (n : Option ℕ) → ClusterCall
  delete_cluster : (id : String) → ClusterCall
  pause_cluster : (id : String) → ClusterCall
  resume_cluster : (id : String) → ClusterCall
  switchover : (id : String) → (target_pod : Value) → (interactive : Bool) → ClusterCall
  switchover_continue : (id : String) → (operation_id : Value) → ClusterCall
  switchover_abort : (id : String) → (operation_id : Value) → ClusterCall
  set_sidecar_log_level : (id : String) → (level : Value) → ClusterCall
  cluster_profile_diff : (id : String) → ClusterCall
  apply_cluster : (id : String) → ClusterCall

unfoldable pub cluster_request : ClusterCall → Sent
cluster_request clusters = sent get ("/clusters") [] no_body
cluster_request health = sent get ("/health") [] no_body
cluster_request (events n) = sent get ("/events") (("limit", num (number_or n 50)) ∷ []) no_body
cluster_request (delete_cluster id) = sent delete ("/clusters/" ⧺ id) [] no_body
cluster_request (pause_cluster id) = sent post ("/clusters/" ⧺ id ⧺ "/pause") [] no_body
cluster_request (resume_cluster id) = sent post ("/clusters/" ⧺ id ⧺ "/resume") [] no_body
cluster_request (switchover id target_pod interactive) =
    sent post ("/clusters/" ⧺ id ⧺ "/switchover") []
      (("target_pod", target_pod) ∷ ("interactive", bool interactive) ∷ [])
cluster_request (switchover_continue id operation_id) =
    sent post ("/clusters/" ⧺ id ⧺ "/switchover/continue") [] (("operation_id", operation_id) ∷ [])
cluster_request (switchover_abort id operation_id) =
    sent post ("/clusters/" ⧺ id ⧺ "/switchover/abort") [] (("operation_id", operation_id) ∷ [])
cluster_request (set_sidecar_log_level id level) =
    sent post ("/clusters/" ⧺ id ⧺ "/sidecar-log-level") [] (("level", level) ∷ [])
cluster_request (cluster_profile_diff id) =
    sent get ("/clusters/" ⧺ id ⧺ "/profile-diff") [] no_body
cluster_request (apply_cluster id) =
    sent post ("/clusters/" ⧺ id ⧺ "/apply") [] (("confirmed", bool true) ∷ [])

-- The route that the call is meant for; none where the server has no such route.
abbrev pub cluster_route : ClusterCall → Option Route
cluster_route clusters = some (cluster ClusterRoute.clusters)
cluster_route health = some (cluster ClusterRoute.health)
cluster_route (events _) = some (cluster ClusterRoute.events)
cluster_route (delete_cluster _) = none
cluster_route (pause_cluster _) = some (cluster ClusterRoute.pause)
cluster_route (resume_cluster _) = some (cluster ClusterRoute.resume)
cluster_route (switchover _ _ _) = some (cluster ClusterRoute.switchover)
cluster_route (switchover_continue _ _) = none
cluster_route (switchover_abort _ _) = none
cluster_route (set_sidecar_log_level _ _) = none
cluster_route (cluster_profile_diff _) = none
cluster_route (apply_cluster _) = none

-- The ids that the call puts into the path: the parts with the indices 2 and 4.
abbrev pub cluster_ids : ClusterCall → String × String
cluster_ids clusters = ("", "")
cluster_ids health = ("", "")
cluster_ids (events _) = ("", "")
cluster_ids (delete_cluster id) = (id, "")
cluster_ids (pause_cluster id) = (id, "")
cluster_ids (resume_cluster id) = (id, "")
cluster_ids (switchover id _ _) = (id, "")
cluster_ids (switchover_continue id _) = (id, "continue")
cluster_ids (switchover_abort id _) = (id, "abort")
cluster_ids (set_sidecar_log_level id _) = (id, "")
cluster_ids (cluster_profile_diff id) = (id, "")
cluster_ids (apply_cluster id) = (id, "")

-- The ids reach the server as they are.
abbrev pub SafeClusterCall : ClusterCall → Type 0
SafeClusterCall clusters = Unit
SafeClusterCall health = Unit
SafeClusterCall (events _) = Unit
SafeClusterCall (delete_cluster id) = IsId id
SafeClusterCall (pause_cluster id) = IsId id
SafeClusterCall (resume_cluster id) = IsId id
SafeClusterCall (switchover id _ _) = IsId id
SafeClusterCall (switchover_continue id _) = IsId id
SafeClusterCall (switchover_abort id _) = IsId id
SafeClusterCall (set_sidecar_log_level id _) = IsId id
SafeClusterCall (cluster_profile_diff id) = IsId id
SafeClusterCall (apply_cluster id) = IsId id

pub cluster_request-Located :
    (c : ClusterCall)
    → SafeClusterCall c
    → Located (cluster_request c) (cluster_ids c) (cluster_route c)
unfolding cluster_request no_slash split_slash route_table first_route matches fires
cluster_request-Located clusters h = locate _ _ _ _ refl refl refl refl
cluster_request-Located health h = locate _ _ _ _ refl refl refl refl
cluster_request-Located (events n) h = locate _ _ _ _ refl refl refl refl
cluster_request-Located (delete_cluster id) h =
    locate _ _ _ _ (split_id "clusters" id refl (is_plain-Fixed _ h.0)) (rw h.1 refl) refl refl
cluster_request-Located (pause_cluster id) h =
    locate _ _ _ _ (split_verb "clusters" id "pause" refl (is_plain-Fixed _ h.0) refl) (rw h.1 refl)
      refl refl
cluster_request-Located (resume_cluster id) h =
    locate _ _ _ _ (split_verb "clusters" id "resume" refl (is_plain-Fixed _ h.0) refl)
      (rw h.1 refl) refl refl
cluster_request-Located (switchover id target_pod interactive) h =
    locate _ _ _ _ (split_verb "clusters" id "switchover" refl (is_plain-Fixed _ h.0) refl)
      (rw h.1 refl) refl refl
cluster_request-Located (switchover_continue id operation_id) h =
    locate _ _ _ _
      (split_verb_verb "clusters" id "switchover" "continue" refl (is_plain-Fixed _ h.0) refl refl)
      (rw h.1 refl) refl refl
cluster_request-Located (switchover_abort id operation_id) h =
    locate _ _ _ _
      (split_verb_verb "clusters" id "switchover" "abort" refl (is_plain-Fixed _ h.0) refl refl)
      (rw h.1 refl) refl refl
cluster_request-Located (set_sidecar_log_level id level) h =
    locate _ _ _ _ (split_verb "clusters" id "sidecar-log-level" refl (is_plain-Fixed _ h.0) refl)
      (rw h.1 refl) refl refl
cluster_request-Located (cluster_profile_diff id) h =
    locate _ _ _ _ (split_verb "clusters" id "profile-diff" refl (is_plain-Fixed _ h.0) refl)
      (rw h.1 refl) refl refl
cluster_request-Located (apply_cluster id) h =
    locate _ _ _ _ (split_verb "clusters" id "apply" refl (is_plain-Fixed _ h.0) refl) (rw h.1 refl)
      refl refl

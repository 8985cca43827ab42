-- ===== src/Api/Satellites.antt =====
-- Satellite calls of the `api` object of dashboard/src/api.js: the request that each sends, the route of
-- mock/plugin.js that is meant to answer it, and that the server finds that route.
use pg_swarm.Base.{ℕ, String, refl, Bool, true, Option, some, [], ◌∷◌, if◌then◌else◌}
use pg_swarm.Js.{Value, num, str, bool, Object, or_else}
use pg_swarm.Js.Text.{◌⧺◌}
use pg_swarm.Mock.{get, post, put}
use pg_swarm.Mock.Paths.{matches, split_slash}
use pg_swarm.Mock.Routes.{Route, satellite, route_table, first_route, fires}
use pg_swarm.Api.{Sent, sent, no_body, number_or}
use pg_swarm.Api.Paths.{no_slash, IsId, is_plain-Fixed, Located, locate, split_verb}
use pg_swarm.Mock.Satellites.{SatelliteRoute}

pub data SatelliteCall : Type 0 where
  satellites : SatelliteCall
  approve : (id : String) → (body : Object) → (replace : Bool) → SatelliteCall
  reject : (id : String) → SatelliteCall
  update_satellite_labels : (id : String) → (labels : Value) → SatelliteCall
  refresh_storage_classes : (id : String) → SatelliteCall
  update_satellite_tier_mappings : (id : String) → (tier_mappings : Value) → SatelliteCall
  satellite_logs : (id : String) → (limit : Option ℕ) → (level : Value) → SatelliteCall
  set_satellite_log_level : (id : String) → (level : Value) → SatelliteCall

unfoldable pub satellite_request : SatelliteCall → Sent
satellite_request satellites = sent get ("/satellites") [] no_body
satellite_request (approve id body replace) =
    sent post ("/satellites/" ⧺ id ⧺ "/approve")
      (if replace then ("replace", bool true) ∷ [] else []) body
satellite_request (reject id) = sent post ("/satellites/" ⧺ id ⧺ "/reject") [] no_body
satellite_request (update_satellite_labels id labels) =
    sent put ("/satellites/" ⧺ id ⧺ "/labels") [] (("labels", labels) ∷ [])
satellite_request (refresh_storage_classes id) =
    sent post ("/satellites/" ⧺ id ⧺ "/refresh-storage-classes") [] no_body
satellite_request (update_satellite_tier_mappings id tier_mappings) =
    sent put ("/satellites/" ⧺ id ⧺ "/tier-mappings") [] (("tier_mappings", tier_mappings) ∷ [])
satellite_request (satellite_logs id limit level) =
    sent get ("/satellites/" ⧺ id ⧺ "/logs")
      (("limit", num (number_or limit 200)) ∷ ("level", or_else level (str "info")) ∷ []) no_body
satellite_request (set_satellite_log_level id level) =
    sent post ("/satellites/" ⧺ id ⧺ "/log-level") [] (("level", level) ∷ [])

-- The route that the call is meant for; none where the server has no such route.
abbrev pub satellite_route : SatelliteCall → Option Route
satellite_route satellites = some (satellite SatelliteRoute.satellites)
satellite_route (approve _ _ _) = some (satellite SatelliteRoute.approve)
satellite_route (reject _) = some (satellite SatelliteRoute.reject)
satellite_route (update_satellite_labels _ _) = some (satellite SatelliteRoute.labels)
satellite_route (refresh_storage_classes _) =
    some (satellite SatelliteRoute.refresh_storage_classes)
satellite_route (update_satellite_tier_mappings _ _) = some (satellite SatelliteRoute.tier_mappings)
satellite_route (satellite_logs _ _ _) = some (satellite SatelliteRoute.satellite_logs)
satellite_route (set_satellite_log_level _ _) = some (satellite SatelliteRoute.log_level)

-- The ids that the call puts into the path: the parts with the indices 2 and 4.
abbrev pub satellite_ids : SatelliteCall → String × String
satellite_ids satellites = ("", "")
satellite_ids (approve id _ _) = (id, "")
satellite_ids (reject id) = (id, "")
satellite_ids (update_satellite_labels id _) = (id, "")
satellite_ids (refresh_storage_classes id) = (id, "")
satellite_ids (update_satellite_tier_mappings id _) = (id, "")
satellite_ids (satellite_logs id _ _) = (id, "")
satellite_ids (set_satellite_log_level id _) = (id, "")

-- The ids reach the server as they are.
abbrev pub SafeSatelliteCall : SatelliteCall → Type 0
SafeSatelliteCall satellites = Unit
SafeSatelliteCall (approve id _ _) = IsId id
SafeSatelliteCall (reject id) = IsId id
SafeSatelliteCall (update_satellite_labels id _) = IsId id
SafeSatelliteCall (refresh_storage_classes id) = IsId id
SafeSatelliteCall (update_satellite_tier_mappings id _) = IsId id
SafeSatelliteCall (satellite_logs id _ _) = IsId id
SafeSatelliteCall (set_satellite_log_level id _) = IsId id

pub satellite_request-Located :
    (c : SatelliteCall)
    → SafeSatelliteCall c
    → Located (satellite_request c) (satellite_ids c) (satellite_route c)
unfolding satellite_request no_slash split_slash route_table first_route matches fires
satellite_request-Located satellites h = locate _ _ _ _ refl refl refl refl
satellite_request-Located (approve id body replace) h =
    locate _ _ _ _ (split_verb "satellites" id "approve" refl (is_plain-Fixed _ h.0) refl)
      (rw h.1 refl) refl refl
satellite_request-Located (reject id) h =
    locate _ _ _ _ (split_verb "satellites" id "reject" refl (is_plain-Fixed _ h.0) refl)
      (rw h.1 refl) refl refl
satellite_request-Located (update_satellite_labels id labels) h =
    locate _ _ _ _ (split_verb "satellites" id "labels" refl (is_plain-Fixed _ h.0) refl)
      (rw h.1 refl) refl refl
satellite_request-Located (refresh_storage_classes id) h =
    locate _ _ _ _
      (split_verb "satellites" id "refresh-storage-classes" refl (is_plain-Fixed _ h.0) refl)
      (rw h.1 refl) refl refl
satellite_request-Located (update_satellite_tier_mappings id tier_mappings) h =
    locate _ _ _ _ (split_verb "satellites" id "tier-mappings" refl (is_plain-Fixed _ h.0) refl)
      (rw h.1 refl) refl refl
satellite_request-Located (satellite_logs id limit level) h =
    locate _ _ _ _ (split_verb "satellites" id "logs" refl (is_plain-Fixed _ h.0) refl)
      (rw h.1 refl) refl refl
satellite_request-Located (set_satellite_log_level id level) h =
    locate _ _ _ _ (split_verb "satellites" id "log-level" refl (is_plain-Fixed _ h.0) refl)
      (rw h.1 refl) refl refl

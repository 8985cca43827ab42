-- ===== src/Api/Profiles.antt =====
-- Profile calls of the `api` object of dashboard/src/api.js: the request that each sends, the route of
-- mock/plugin.js that is meant to answer it, and that the server finds that route.
use pg_swarm.Base.{String, refl, true, Option, none, some, [], ◌∷◌}
use pg_swarm.Js.{Value, bool, Object}
use pg_swarm.Js.Text.{◌⧺◌}
use pg_swarm.Mock.{get, post, put, delete}
use pg_swarm.Mock.Paths.{matches, split_slash}
use pg_swarm.Mock.Routes.{Route, profile, route_table, first_route, fires}
use pg_swarm.Api.{Sent, sent, no_body}
use pg_swarm.Api.Paths.{no_slash, IsId, is_plain-Fixed, Located, locate, split_id, split_verb}
use pg_swarm.Mock.Profiles.{ProfileRoute}

pub data ProfileCall : Type 0 where
  profiles : ProfileCall
  create_profile : (body : Object) → ProfileCall
  update_profile : (id : String) → (body : Object) → ProfileCall
  delete_profile : (id : String) → ProfileCall
  clone_profile : (id : String) → (name : Value) → ProfileCall
  cascade_preview : (id : String) → ProfileCall
  cascade_delete_profile : (id : String) → ProfileCall
  apply_profile : (id : String) → ProfileCall
  profile_versions : (id : String) → ProfileCall

unfoldable pub profile_request : ProfileCall → Sent
profile_request profiles = sent get ("/profiles") [] no_body
profile_request (create_profile body) = sent post ("/profiles") [] body
profile_request (update_profile id body) = sent put ("/profiles/" ⧺ id) [] body
profile_request (delete_profile id) = sent delete ("/profiles/" ⧺ id) [] no_body
profile_request (clone_profile id name) =
    sent post ("/profiles/" ⧺ id ⧺ "/clone") [] (("name", name) ∷ [])
profile_request (cascade_preview id) = sent get ("/profiles/" ⧺ id ⧺ "/cascade-preview") [] no_body
profile_request (cascade_delete_profile id) =
    sent delete ("/profiles/" ⧺ id) (("cascade", bool true) ∷ []) no_body
profile_request (apply_profile id) =
    sent post ("/profiles/" ⧺ id ⧺ "/apply") [] (("confirmed", bool true) ∷ [])
profile_request (profile_versions id) = sent get ("/profiles/" ⧺ id ⧺ "/versions") [] no_body

-- The route that the call is meant for; none where the server has no such route.
abbrev pub profile_route : ProfileCall → Option Route
profile_route profiles = some (profile ProfileRoute.profiles)
profile_route (create_profile _) = some (profile ProfileRoute.create_profile)
profile_route (update_profile _ _) = some (profile ProfileRoute.update_profile)
profile_route (delete_profile _) = some (profile ProfileRoute.delete_profile)
profile_route (clone_profile _ _) = some (profile ProfileRoute.clone_profile)
profile_route (cascade_preview _) = none
profile_route (cascade_delete_profile _) = some (profile ProfileRoute.delete_profile)
profile_route (apply_profile _) = none
profile_route (profile_versions _) = none

-- The ids that the call puts into the path: the parts with the indices 2 and 4.
abbrev pub profile_ids : ProfileCall → String × String
profile_ids profiles = ("", "")
profile_ids (create_profile _) = ("", "")
profile_ids (update_profile id _) = (id, "")
profile_ids (delete_profile id) = (id, "")
profile_ids (clone_profile id _) = (id, "")
profile_ids (cascade_preview id) = (id, "")
profile_ids (cascade_delete_profile id) = (id, "")
profile_ids (apply_profile id) = (id, "")
profile_ids (profile_versions id) = (id, "")

-- The ids reach the server as they are.
abbrev pub SafeProfileCall : ProfileCall → Type 0
SafeProfileCall profiles = Unit
SafeProfileCall (create_profile _) = Unit
SafeProfileCall (update_profile id _) = IsId id
SafeProfileCall (delete_profile id) = IsId id
SafeProfileCall (clone_profile id _) = IsId id
SafeProfileCall (cascade_preview id) = IsId id
SafeProfileCall (cascade_delete_profile id) = IsId id
SafeProfileCall (apply_profile id) = IsId id
SafeProfileCall (profile_versions id) = IsId id

pub profile_request-Located :
    (c : ProfileCall)
    → SafeProfileCall c
    → Located (profile_request c) (profile_ids c) (profile_route c)
unfolding profile_request no_slash split_slash route_table first_route matches fires
profile_request-Located profiles h = locate _ _ _ _ refl refl refl refl
profile_request-Located (create_profile body) h = locate _ _ _ _ refl refl refl refl
profile_request-Located (update_profile id body) h =
    locate _ _ _ _ (split_id "profiles" id refl (is_plain-Fixed _ h.0)) (rw h.1 refl) refl refl
profile_request-Located (delete_profile id) h =
    locate _ _ _ _ (split_id "profiles" id refl (is_plain-Fixed _ h.0)) (rw h.1 refl) refl refl
profile_request-Located (clone_profile id name) h =
    locate _ _ _ _ (split_verb "profiles" id "clone" refl (is_plain-Fixed _ h.0) refl) (rw h.1 refl)
      refl refl
profile_request-Located (cascade_preview id) h =
    locate _ _ _ _ (split_verb "profiles" id "cascade-preview" refl (is_plain-Fixed _ h.0) refl)
      (rw h.1 refl) refl refl
profile_request-Located (cascade_delete_profile id) h =
    locate _ _ _ _ (split_id "profiles" id refl (is_plain-Fixed _ h.0)) (rw h.1 refl) refl refl
profile_request-Located (apply_profile id) h =
    locate _ _ _ _ (split_verb "profiles" id "apply" refl (is_plain-Fixed _ h.0) refl) (rw h.1 refl)
      refl refl
profile_request-Located (profile_versions id) h =
    locate _ _ _ _ (split_verb "profiles" id "versions" refl (is_plain-Fixed _ h.0) refl)
      (rw h.1 refl) refl refl

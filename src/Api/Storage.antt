-- ===== src/Api/Storage.antt =====
-- The calls for cluster databases, backups, restores and backup stores of the `api` object of dashboard/src/api.js: the request that each sends, the route of
-- mock/plugin.js that is meant to answer it, and that the server finds that route.
use pg_swarm.Base.{ℕ, String, refl, Option, none, [], ◌∷◌}
use pg_swarm.Js.{Value, num, Object}
use pg_swarm.Js.Text.{◌⧺◌}
use pg_swarm.Mock.{get, post, put, delete}
use pg_swarm.Mock.Paths.{matches, split_slash}
use pg_swarm.Mock.Routes.{Route, route_table, first_route, fires}
use pg_swarm.Api.{Sent, sent, no_body, number_or}
use pg_swarm.Api.Paths.{
  no_slash, IsId, is_plain-Fixed, Located, locate, split_id, split_verb, split_verb_id,
}

pub data StorageCall : Type 0 where
  cluster_databases : (id : String) → StorageCall
  create_cluster_database : (id : String) → (body : Object) → StorageCall
  update_cluster_database : (id : String) → (hid : String) → (body : Object) → StorageCall
  delete_cluster_database : (id : String) → (hid : String) → StorageCall
  cluster_backups : (id : String) → (limit : Option ℕ) → StorageCall
  trigger_backup : (id : String) → (backup_type : Value) → StorageCall
  cluster_restores : (id : String) → (limit : Option ℕ) → StorageCall
  trigger_restore : (id : String) → (body : Object) → StorageCall
  backup_stores : StorageCall
  create_backup_store : (body : Object) → StorageCall
  update_backup_store : (id : String) → (body : Object) → StorageCall
  delete_backup_store : (id : String) → StorageCall

unfoldable pub storage_request : StorageCall → Sent
storage_request (cluster_databases id) = sent get ("/clusters/" ⧺ id ⧺ "/databases") [] no_body
storage_request (create_cluster_database id body) =
    sent post ("/clusters/" ⧺ id ⧺ "/databases") [] body
storage_request (update_cluster_database id hid body) =
    sent put ("/clusters/" ⧺ id ⧺ "/databases/" ⧺ hid) [] body
storage_request (delete_cluster_database id hid) =
    sent delete ("/clusters/" ⧺ id ⧺ "/databases/" ⧺ hid) [] no_body
storage_request (cluster_backups id limit) =
    sent get ("/clusters/" ⧺ id ⧺ "/backups") (("limit", num (number_or limit 50)) ∷ []) no_body
storage_request (trigger_backup id backup_type) =
    sent post ("/clusters/" ⧺ id ⧺ "/trigger-backup") [] (("backup_type", backup_type) ∷ [])
storage_request (cluster_restores id limit) =
    sent get ("/clusters/" ⧺ id ⧺ "/restores") (("limit", num (number_or limit 50)) ∷ []) no_body
storage_request (trigger_restore id body) = sent post ("/clusters/" ⧺ id ⧺ "/restore") [] body
storage_request backup_stores = sent get ("/backup-stores") [] no_body
storage_request (create_backup_store body) = sent post ("/backup-stores") [] body
storage_request (update_backup_store id body) = sent put ("/backup-stores/" ⧺ id) [] body
storage_request (delete_backup_store id) = sent delete ("/backup-stores/" ⧺ id) [] no_body

-- The route that the call is meant for; none where the server has no such route.
abbrev pub storage_route : StorageCall → Option Route
storage_route (cluster_databases _) = none
storage_route (create_cluster_database _ _) = none
storage_route (update_cluster_database _ _ _) = none
storage_route (delete_cluster_database _ _) = none
storage_route (cluster_backups _ _) = none
storage_route (trigger_backup _ _) = none
storage_route (cluster_restores _ _) = none
storage_route (trigger_restore _ _) = none
storage_route backup_stores = none
storage_route (create_backup_store _) = none
storage_route (update_backup_store _ _) = none
storage_route (delete_backup_store _) = none

-- The ids that the call puts into the path: the parts with the indices 2 and 4.
abbrev pub storage_ids : StorageCall → String × String
storage_ids (cluster_databases id) = (id, "")
storage_ids (create_cluster_database id _) = (id, "")
storage_ids (update_cluster_database id hid _) = (id, hid)
storage_ids (delete_cluster_database id hid) = (id, hid)
storage_ids (cluster_backups id _) = (id, "")
storage_ids (trigger_backup id _) = (id, "")
storage_ids (cluster_restores id _) = (id, "")
storage_ids (trigger_restore id _) = (id, "")
storage_ids backup_stores = ("", "")
storage_ids (create_backup_store _) = ("", "")
storage_ids (update_backup_store id _) = (id, "")
storage_ids (delete_backup_store id) = (id, "")

-- The ids reach the server as they are.
abbrev pub SafeStorageCall : StorageCall → Type 0
SafeStorageCall (cluster_databases id) = IsId id
SafeStorageCall (create_cluster_database id _) = IsId id
SafeStorageCall (update_cluster_database id hid _) = IsId id × IsId hid
SafeStorageCall (delete_cluster_database id hid) = IsId id × IsId hid
SafeStorageCall (cluster_backups id _) = IsId id
SafeStorageCall (trigger_backup id _) = IsId id
SafeStorageCall (cluster_restores id _) = IsId id
SafeStorageCall (trigger_restore id _) = IsId id
SafeStorageCall backup_stores = Unit
SafeStorageCall (create_backup_store _) = Unit
SafeStorageCall (update_backup_store id _) = IsId id
SafeStorageCall (delete_backup_store id) = IsId id

pub storage_request-Located :
    (c : StorageCall)
    → SafeStorageCall c
    → Located (storage_request c) (storage_ids c) (storage_route c)
unfolding storage_request no_slash split_slash route_table first_route matches fires
storage_request-Located (cluster_databases id) h =
    locate _ _ _ _ (split_verb "clusters" id "databases" refl (is_plain-Fixed _ h.0) refl)
      (rw h.1 refl) refl refl
storage_request-Located (create_cluster_database id body) h =
    locate _ _ _ _ (split_verb "clusters" id "databases" refl (is_plain-Fixed _ h.0) refl)
      (rw h.1 refl) refl refl
storage_request-Located (update_cluster_database id hid body) h =
    locate _ _ _ _
      (split_verb_id "clusters" id "databases" hid refl (is_plain-Fixed _ h.0.0) refl
        (is_plain-Fixed _ h.1.0))
      (rw h.0.1 refl) refl refl
storage_request-Located (delete_cluster_database id hid) h =
    locate _ _ _ _
      (split_verb_id "clusters" id "databases" hid refl (is_plain-Fixed _ h.0.0) refl
        (is_plain-Fixed _ h.1.0))
      (rw h.0.1 refl) refl refl
storage_request-Located (cluster_backups id limit) h =
    locate _ _ _ _ (split_verb "clusters" id "backups" refl (is_plain-Fixed _ h.0) refl)
      (rw h.1 refl) refl refl
storage_request-Located (trigger_backup id backup_type) h =
    locate _ _ _ _ (split_verb "clusters" id "trigger-backup" refl (is_plain-Fixed _ h.0) refl)
      (rw h.1 refl) refl refl
storage_request-Located (cluster_restores id limit) h =
    locate _ _ _ _ (split_verb "clusters" id "restores" refl (is_plain-Fixed _ h.0) refl)
      (rw h.1 refl) refl refl
storage_request-Located (trigger_restore id body) h =
    locate _ _ _ _ (split_verb "clusters" id "restore" refl (is_plain-Fixed _ h.0) refl)
      (rw h.1 refl) refl refl
storage_request-Located backup_stores h = locate _ _ _ _ refl refl refl refl
storage_request-Located (create_backup_store body) h = locate _ _ _ _ refl refl refl refl
storage_request-Located (update_backup_store id body) h =
    locate _ _ _ _ (split_id "backup-stores" id refl (is_plain-Fixed _ h.0)) refl refl refl
storage_request-Located (delete_backup_store id) h =
    locate _ _ _ _ (split_id "backup-stores" id refl (is_plain-Fixed _ h.0)) refl refl refl

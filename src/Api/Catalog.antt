-- ===== src/Api/Catalog.antt =====
-- The calls for storage tiers, PostgreSQL versions and variants, and parameter classifications of the `api` object of dashboard/src/api.js: the request that each sends, the route of
-- mock/plugin.js that is meant to answer it, and that the server finds that route.
use pg_swarm.Base.{String, refl, Option, some, []}
use pg_swarm.Js.{Object}
use pg_swarm.Js.Text.{◌⧺◌}
use pg_swarm.Mock.{get, post, put, delete}
use pg_swarm.Mock.Paths.{matches, split_slash}
use pg_swarm.Mock.Routes.{Route, catalog, param, route_table, first_route, fires}
use pg_swarm.Api.{Sent, sent, no_body}
use pg_swarm.Api.Paths.{no_slash, IsId, is_plain-Fixed, Located, locate, split_id, split_verb}
use pg_swarm.Mock.Catalog.{CatalogRoute}
use pg_swarm.Mock.Catalog.{ParamRoute}

pub data CatalogCall : Type 0 where
  storage_tiers : CatalogCall
  create_storage_tier : (body : Object) → CatalogCall
  update_storage_tier : (id : String) → (body : Object) → CatalogCall
  delete_storage_tier : (id : String) → CatalogCall
  postgres_versions : CatalogCall
  create_postgres_version : (body : Object) → CatalogCall
  update_postgres_version : (id : String) → (body : Object) → CatalogCall
  delete_postgres_version : (id : String) → CatalogCall
  set_default_postgres_version : (id : String) → CatalogCall
  postgres_variants : CatalogCall
  create_postgres_variant : (body : Object) → CatalogCall
  delete_postgres_variant : (id : String) → CatalogCall
  pg_param_classifications : CatalogCall
  upsert_pg_param_classification : (body : Object) → CatalogCall
  -- the id is `encodeURIComponent(name)`
  delete_pg_param_classification : (id : String) → CatalogCall

unfoldable pub catalog_request : CatalogCall → Sent
catalog_request storage_tiers = sent get ("/storage-tiers") [] no_body
catalog_request (create_storage_tier body) = sent post ("/storage-tiers") [] body
catalog_request (update_storage_tier id body) = sent put ("/storage-tiers/" ⧺ id) [] body
catalog_request (delete_storage_tier id) = sent delete ("/storage-tiers/" ⧺ id) [] no_body
catalog_request postgres_versions = sent get ("/postgres-versions") [] no_body
catalog_request (create_postgres_version body) = sent post ("/postgres-versions") [] body
catalog_request (update_postgres_version id body) = sent put ("/postgres-versions/" ⧺ id) [] body
catalog_request (delete_postgres_version id) = sent delete ("/postgres-versions/" ⧺ id) [] no_body
catalog_request (set_default_postgres_version id) =
    sent post ("/postgres-versions/" ⧺ id ⧺ "/default") [] no_body
catalog_request postgres_variants = sent get ("/postgres-variants") [] no_body
catalog_request (create_postgres_variant body) = sent post ("/postgres-variants") [] body
catalog_request (delete_postgres_variant id) = sent delete ("/postgres-variants/" ⧺ id) [] no_body
catalog_request pg_param_classifications = sent get ("/pg-param-classifications") [] no_body
catalog_request (upsert_pg_param_classification body) =
    sent post ("/pg-param-classifications") [] body
catalog_request (delete_pg_param_classification id) =
    sent delete ("/pg-param-classifications/" ⧺ id) [] no_body

-- The route that the call is meant for; none where the server has no such route.
abbrev pub catalog_route : CatalogCall → Option Route
catalog_route storage_tiers = some (catalog CatalogRoute.storage_tiers)
catalog_route (create_storage_tier _) = some (catalog CatalogRoute.create_tier)
catalog_route (update_storage_tier _ _) = some (catalog CatalogRoute.update_tier)
catalog_route (delete_storage_tier _) = some (catalog CatalogRoute.delete_tier)
catalog_route postgres_versions = some (catalog CatalogRoute.postgres_versions)
catalog_route (create_postgres_version _) = some (catalog CatalogRoute.create_version)
catalog_route (update_postgres_version _ _) = some (catalog CatalogRoute.update_version)
catalog_route (delete_postgres_version _) = some (catalog CatalogRoute.delete_version)
catalog_route (set_default_postgres_version _) = some (catalog CatalogRoute.default_version)
catalog_route postgres_variants = some (catalog CatalogRoute.postgres_variants)
catalog_route (create_postgres_variant _) = some (catalog CatalogRoute.create_variant)
catalog_route (delete_postgres_variant _) = some (catalog CatalogRoute.delete_variant)
catalog_route pg_param_classifications = some (param ParamRoute.param_classifications)
catalog_route (upsert_pg_param_classification _) = some (param ParamRoute.upsert_classification)
catalog_route (delete_pg_param_classification _) = some (param ParamRoute.delete_classification)

-- The ids that the call puts into the path: the parts with the indices 2 and 4.
abbrev pub catalog_ids : CatalogCall → String × String
catalog_ids storage_tiers = ("", "")
catalog_ids (create_storage_tier _) = ("", "")
catalog_ids (update_storage_tier id _) = (id, "")
catalog_ids (delete_storage_tier id) = (id, "")
catalog_ids postgres_versions = ("", "")
catalog_ids (create_postgres_version _) = ("", "")
catalog_ids (update_postgres_version id _) = (id, "")
catalog_ids (delete_postgres_version id) = (id, "")
catalog_ids (set_default_postgres_version id) = (id, "")
catalog_ids postgres_variants = ("", "")
catalog_ids (create_postgres_variant _) = ("", "")
catalog_ids (delete_postgres_variant id) = (id, "")
catalog_ids pg_param_classifications = ("", "")
catalog_ids (upsert_pg_param_classification _) = ("", "")
catalog_ids (delete_pg_param_classification id) = (id, "")

-- The ids reach the server as they are.
abbrev pub SafeCatalogCall : CatalogCall → Type 0
SafeCatalogCall storage_tiers = Unit
SafeCatalogCall (create_storage_tier _) = Unit
SafeCatalogCall (update_storage_tier id _) = IsId id
SafeCatalogCall (delete_storage_tier id) = IsId id
SafeCatalogCall postgres_versions = Unit
SafeCatalogCall (create_postgres_version _) = Unit
SafeCatalogCall (update_postgres_version id _) = IsId id
SafeCatalogCall (delete_postgres_version id) = IsId id
SafeCatalogCall (set_default_postgres_version id) = IsId id
SafeCatalogCall postgres_variants = Unit
SafeCatalogCall (create_postgres_variant _) = Unit
SafeCatalogCall (delete_postgres_variant id) = IsId id
SafeCatalogCall pg_param_classifications = Unit
SafeCatalogCall (upsert_pg_param_classification _) = Unit
SafeCatalogCall (delete_pg_param_classification id) = IsId id

pub catalog_request-Located :
    (c : CatalogCall)
    → SafeCatalogCall c
    → Located (catalog_request c) (catalog_ids c) (catalog_route c)
unfolding catalog_request no_slash split_slash route_table first_route matches fires
catalog_request-Located storage_tiers h = locate _ _ _ _ refl refl refl refl
catalog_request-Located (create_storage_tier body) h = locate _ _ _ _ refl refl refl refl
catalog_request-Located (update_storage_tier id body) h =
    locate _ _ _ _ (split_id "storage-tiers" id refl (is_plain-Fixed _ h.0)) (rw h.1 refl) refl refl
catalog_request-Located (delete_storage_tier id) h =
    locate _ _ _ _ (split_id "storage-tiers" id refl (is_plain-Fixed _ h.0)) (rw h.1 refl) refl refl
catalog_request-Located postgres_versions h = locate _ _ _ _ refl refl refl refl
catalog_request-Located (create_postgres_version body) h = locate _ _ _ _ refl refl refl refl
catalog_request-Located (update_postgres_version id body) h =
    locate _ _ _ _ (split_id "postgres-versions" id refl (is_plain-Fixed _ h.0)) (rw h.1 refl) refl
      refl
catalog_request-Located (delete_postgres_version id) h =
    locate _ _ _ _ (split_id "postgres-versions" id refl (is_plain-Fixed _ h.0)) (rw h.1 refl) refl
      refl
catalog_request-Located (set_default_postgres_version id) h =
    locate _ _ _ _ (split_verb "postgres-versions" id "default" refl (is_plain-Fixed _ h.0) refl)
      (rw h.1 refl) refl refl
catalog_request-Located postgres_variants h = locate _ _ _ _ refl refl refl refl
catalog_request-Located (create_postgres_variant body) h = locate _ _ _ _ refl refl refl refl
catalog_request-Located (delete_postgres_variant id) h =
    locate _ _ _ _ (split_id "postgres-variants" id refl (is_plain-Fixed _ h.0)) (rw h.1 refl) refl
      refl
catalog_request-Located pg_param_classifications h = locate _ _ _ _ refl refl refl refl
catalog_request-Located (upsert_pg_param_classification body) h = locate _ _ _ _ refl refl refl refl
catalog_request-Located (delete_pg_param_classification id) h =
    locate _ _ _ _ (split_id "pg-param-classifications" id refl (is_plain-Fixed _ h.0))
      (rw h.1 refl) refl refl

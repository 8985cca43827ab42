-- ===== src/Mock/Catalog.antt =====
-- The routes of mock/plugin.js for PostgreSQL versions and variants, storage tiers and parameter
-- classifications.
use pg_swarm.Base.{
  String, Option, none, some, [], ◌∷◌, ◌++◌, Bool, true, false, not, map, find, filter, any,
}
use pg_swarm.Js.{str, bool, Object, get, set, assign, is_str, strict_eq}
use pg_swarm.Js.Text.{◌⧺◌}
use pg_swarm.Mock.{
  State, Host, Request, Handled, json, fault, list, object, ok_true, object_or_404, props,
  reads_body,
}
use pg_swarm.Mock.Collection.{has_id, without_id, update_first, patch_by_id, patched_by_id, spread}
use pg_swarm.Mock.Profiles.{updated, stamps}

pub data CatalogRoute : Type 0 where
  postgres_versions create_version update_version delete_version default_version : CatalogRoute
  postgres_variants create_variant delete_variant : CatalogRoute
  storage_tiers create_tier update_tier delete_tier : CatalogRoute

-- `v.is_default = v.id === id`
unfoldable pub mark_default : String → Object → Object
mark_default id v = set v "is_default" (bool (has_id id v))

unfoldable pub handle_catalog : Host → Request → String → CatalogRoute → State → Handled
handle_catalog host req id postgres_versions s = (s, json 200 (list s.postgres_versions))
handle_catalog host req id create_version s =
    let v =
      spread (("id", str ("pgv-" ⧺ host.date_now)) ∷ ("is_default", bool false) ∷ [])
        (props req.body) in
    (record s { postgres_versions = s.postgres_versions ++ v ∷ [] }, json 201 (object v))
handle_catalog host req id update_version s = (
  record s { postgres_versions = patch_by_id id (props req.body) [] s.postgres_versions },
  object_or_404 (patched_by_id id (props req.body) [] s.postgres_versions),
)
handle_catalog host req id delete_version s =
    (record s { postgres_versions = without_id id s.postgres_versions }, json 200 ok_true)
handle_catalog host req id default_version s =
    (record s { postgres_versions = map (mark_default id) s.postgres_versions }, json 200 ok_true)
handle_catalog host req id postgres_variants s = (s, json 200 (list s.postgres_variants))
handle_catalog host req id create_variant s =
    let v = spread (("id", str ("pgvar-" ⧺ host.date_now)) ∷ []) (props req.body) in
    (record s { postgres_variants = s.postgres_variants ++ v ∷ [] }, json 201 (object v))
handle_catalog host req id delete_variant s =
    (record s { postgres_variants = without_id id s.postgres_variants }, json 200 ok_true)
handle_catalog host req id storage_tiers s = (s, json 200 (list s.storage_tiers))
handle_catalog host req id create_tier s =
    let t = spread (("id", str ("tier-" ⧺ host.date_now)) ∷ stamps host) (props req.body) in
    (record s { storage_tiers = s.storage_tiers ++ t ∷ [] }, json 201 (object t))
handle_catalog host req id update_tier s = (
  record s {
    storage_tiers = patch_by_id id (props req.body) (updated (host.iso 0)) s.storage_tiers;
  },
  object_or_404 (patched_by_id id (props req.body) (updated (host.iso 0)) s.storage_tiers),
)
handle_catalog host req id delete_tier s =
    (record s { storage_tiers = without_id id s.storage_tiers }, json 200 ok_true)

pub data ParamRoute : Type 0 where
  param_classifications upsert_classification delete_classification : ParamRoute

-- `p.name === b.name`
unfoldable pub same_name : Object → Object → Bool
same_name b p = strict_eq (get p "name") (get b "name")

-- `p.name === name`
unfoldable pub has_name : String → Object → Bool
has_name name p = is_str (get p "name") name

-- The `if (idx >= 0)` of the upsert, at what `findIndex` found.
unfoldable pub upsert : Host → Object → Option Object → State → Handled
upsert host b none s =
    let p = spread (("created_at", str (host.iso 0)) ∷ ("updated_at", str (host.iso 0)) ∷ []) b in
    (
      record s { pg_param_classifications = s.pg_param_classifications ++ p ∷ [] },
      json 201 (object p),
    )
upsert host b (some old) s =
    let write = λ (p : Object). assign (assign p b) (updated (host.iso 0)) in
    (
      record s {
        pg_param_classifications = update_first (same_name b) write s.pg_param_classifications;
      },
      json 200 (object (write old)),
    )

-- At what `decodeURIComponent` gives.
unfoldable pub remove_name : Option String → State → Handled
remove_name none s = (s, fault)
remove_name (some name) s = (
  record s {
    pg_param_classifications = filter (λ p. not (has_name name p)) s.pg_param_classifications;
  },
  json 200 ok_true,
)

unfoldable pub handle_param : Host → Request → String → ParamRoute → State → Handled
unfolding upsert remove_name
handle_param host req id param_classifications s = (s, json 200 (list s.pg_param_classifications))
handle_param host req id upsert_classification s =
    reads_body req.body (any (λ x. true) s.pg_param_classifications) s (
      upsert host (props req.body) (find (same_name (props req.body)) s.pg_param_classifications) s)
handle_param host req id delete_classification s = remove_name (host.decode id) s

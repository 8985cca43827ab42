-- ===== src/Mock/Fixtures/Catalog.antt =====
-- `postgresVersions`, `postgresVariants` and `storageTiers` of dashboard/mock/data.js.
use pg_swarm.Base.{String, Bool, true, false, List, [], ◌∷◌}
use pg_swarm.Js.{bool, str, Object}
use pg_swarm.Mock.Fixtures.{Clock}

abbrev version_of : String → String → String → String → Bool → Object
version_of id version variant image_tag is_default =
    ("id", str id)
    ∷ ("version", str version)
    ∷ ("variant", str variant)
    ∷ ("image_tag", str image_tag)
    ∷ ("is_default", bool is_default)
    ∷ []

-- `postgresVersions`
unfoldable pub postgres_versions : List Object
postgres_versions =
    version_of "pgv-001" "17.2" "alpine" "postgres:17.2-alpine" true
    ∷ version_of "pgv-002" "17.2" "bookworm" "postgres:17.2-bookworm" false
    ∷ version_of "pgv-003" "16.6" "alpine" "postgres:16.6-alpine" false
    ∷ version_of "pgv-004" "16.6" "bookworm" "postgres:16.6-bookworm" false
    ∷ version_of "pgv-005" "15.10" "alpine" "postgres:15.10-alpine" false
    ∷ []

abbrev variant_of : String → String → String → Object
variant_of id name description =
    ("id", str id) ∷ ("name", str name) ∷ ("description", str description) ∷ []

-- `postgresVariants`
unfoldable pub postgres_variants : List Object
postgres_variants =
    variant_of "pgvar-001" "alpine" "Minimal Alpine-based image"
    ∷ variant_of "pgvar-002" "bookworm" "Debian Bookworm-based image"
    ∷ variant_of "pgvar-003" "postgis" "PostGIS spatial extension"
    ∷ []

-- `storageTiers`
unfoldable pub storage_tiers : Clock → List Object
storage_tiers clock =
    (("id", str "tier-001")
      ∷ ("name", str "fast")
      ∷ ("description", str "High-performance NVMe or provisioned IOPS storage")
      ∷ ("created_at", str (clock.ago 2592000))
      ∷ ("updated_at", str (clock.ago 2592000))
      ∷ [])
    ∷ (("id", str "tier-002")
        ∷ ("name", str "standard")
        ∷ ("description", str "General-purpose SSD storage")
        ∷ ("created_at", str (clock.ago 2592000))
        ∷ ("updated_at", str (clock.ago 2592000))
        ∷ [])
    ∷ (("id", str "tier-003")
        ∷ ("name", str "replicated")
        ∷ ("description", str "Multi-AZ replicated block storage")
        ∷ ("created_at", str (clock.ago 1728000))
        ∷ ("updated_at", str (clock.ago 1728000))
        ∷ [])
    ∷ (("id", str "tier-004")
        ∷ ("name", str "archive")
        ∷ ("description", str "Low-cost storage for backups and cold data")
        ∷ ("created_at", str (clock.ago 1296000))
        ∷ ("updated_at", str (clock.ago 1296000))
        ∷ [])
    ∷ []

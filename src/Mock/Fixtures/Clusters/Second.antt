-- ===== src/Mock/Fixtures/Clusters/Second.antt =====
-- The other elements of `clusters` of dashboard/mock/data.js.
use pg_swarm.Base.{true, false, [], ◌∷◌}
use pg_swarm.Js.{null, bool, num, str, Object}
use pg_swarm.Mock.Fixtures.{Clock}
use pg_swarm.Mock.Fixtures.Ids.{
  sat_edge1, sat_edge2, sat_edge3, rule_prod_us, rule_prod_eu, rule_staging, clus_sessions_us,
  clus_sessions_eu, clus_audit_us, clus_cache_us, clus_cache_eu, clus_metrics_us, clus_notify_us,
  clus_search_ap,
}
use pg_swarm.Mock.Fixtures.Profiles.{config_0, config_1, config_2}

abbrev pub cluster_10 : Clock → Object
cluster_10 clock =
    ("id", str clus_sessions_us)
    ∷ ("name", str "sessions-db")
    ∷ ("namespace", str "pg-clusters")
    ∷ ("satellite_id", str sat_edge1)
    ∷ ("state", str "running")
    ∷ ("paused", bool false)
    ∷ ("config", str (config_0 clock))
    ∷ ("deployment_rule_id", str rule_prod_us)
    ∷ ("config_version", num 1)
    ∷ ("created_at", str (clock.ago 1382400))
    ∷ ("updated_at", str (clock.ago 20))
    ∷ []

abbrev pub cluster_11 : Clock → Object
cluster_11 clock =
    ("id", str clus_sessions_eu)
    ∷ ("name", str "sessions-db")
    ∷ ("namespace", str "pg-clusters")
    ∷ ("satellite_id", str sat_edge2)
    ∷ ("state", str "running")
    ∷ ("paused", bool true)
    ∷ ("config", str (config_0 clock))
    ∷ ("deployment_rule_id", str rule_prod_eu)
    ∷ ("config_version", num 1)
    ∷ ("created_at", str (clock.ago 1382400))
    ∷ ("updated_at", str (clock.ago 3600))
    ∷ []

abbrev pub cluster_12 : Clock → Object
cluster_12 clock =
    ("id", str clus_audit_us)
    ∷ ("name", str "audit-db")
    ∷ ("namespace", str "compliance")
    ∷ ("satellite_id", str sat_edge1)
    ∷ ("state", str "running")
    ∷ ("paused", bool false)
    ∷ ("config", str (config_0 clock))
    ∷ ("deployment_rule_id", null)
    ∷ ("config_version", num 1)
    ∷ ("created_at", str (clock.ago 864000))
    ∷ ("updated_at", str (clock.ago 40))
    ∷ []

abbrev pub cluster_13 : Clock → Object
cluster_13 clock =
    ("id", str clus_cache_us)
    ∷ ("name", str "cache-db")
    ∷ ("namespace", str "pg-clusters")
    ∷ ("satellite_id", str sat_edge1)
    ∷ ("state", str "running")
    ∷ ("paused", bool false)
    ∷ ("config", str (config_2 clock))
    ∷ ("deployment_rule_id", null)
    ∷ ("config_version", num 1)
    ∷ ("created_at", str (clock.ago 691200))
    ∷ ("updated_at", str (clock.ago 55))
    ∷ []

abbrev pub cluster_14 : Clock → Object
cluster_14 clock =
    ("id", str clus_cache_eu)
    ∷ ("name", str "cache-db")
    ∷ ("namespace", str "pg-clusters")
    ∷ ("satellite_id", str sat_edge2)
    ∷ ("state", str "degraded")
    ∷ ("paused", bool false)
    ∷ ("config", str (config_2 clock))
    ∷ ("deployment_rule_id", null)
    ∷ ("config_version", num 1)
    ∷ ("created_at", str (clock.ago 691200))
    ∷ ("updated_at", str (clock.ago 200))
    ∷ []

abbrev pub cluster_15 : Clock → Object
cluster_15 clock =
    ("id", str clus_metrics_us)
    ∷ ("name", str "metrics-db")
    ∷ ("namespace", str "monitoring")
    ∷ ("satellite_id", str sat_edge1)
    ∷ ("state", str "running")
    ∷ ("paused", bool false)
    ∷ ("config", str (config_1 clock))
    ∷ ("deployment_rule_id", null)
    ∷ ("config_version", num 1)
    ∷ ("created_at", str (clock.ago 518400))
    ∷ ("updated_at", str (clock.ago 25))
    ∷ []

abbrev pub cluster_16 : Clock → Object
cluster_16 clock =
    ("id", str clus_notify_us)
    ∷ ("name", str "notify-db")
    ∷ ("namespace", str "pg-clusters")
    ∷ ("satellite_id", str sat_edge1)
    ∷ ("state", str "running")
    ∷ ("paused", bool false)
    ∷ ("config", str (config_2 clock))
    ∷ ("deployment_rule_id", null)
    ∷ ("config_version", num 1)
    ∷ ("created_at", str (clock.ago 345600))
    ∷ ("updated_at", str (clock.ago 65))
    ∷ []

abbrev pub cluster_17 : Clock → Object
cluster_17 clock =
    ("id", str clus_search_ap)
    ∷ ("name", str "search-db")
    ∷ ("namespace", str "pg-clusters")
    ∷ ("satellite_id", str sat_edge3)
    ∷ ("state", str "running")
    ∷ ("paused", bool false)
    ∷ ("config", str (config_1 clock))
    ∷ ("deployment_rule_id", str rule_staging)
    ∷ ("config_version", num 1)
    ∷ ("created_at", str (clock.ago 259200))
    ∷ ("updated_at", str (clock.ago 80))
    ∷ []

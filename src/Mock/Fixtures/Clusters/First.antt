-- ===== src/Mock/Fixtures/Clusters/First.antt =====
-- The first elements of `clusters` of dashboard/mock/data.js.
use pg_swarm.Base.{false, [], ◌∷◌}
use pg_swarm.Js.{null, bool, num, str, Object}
use pg_swarm.Mock.Fixtures.{Clock}
use pg_swarm.Mock.Fixtures.Ids.{
  sat_edge1, sat_edge2, sat_edge3, sat_edge4, rule_prod_us, rule_prod_eu, rule_staging,
  clus_orders_us_east, clus_orders_eu_west, clus_staging_ap, clus_orders_us_west, clus_analytics_us,
  clus_payments_us, clus_payments_eu, clus_inventory_us, clus_inventory_ap,
}
use pg_swarm.Mock.Fixtures.Profiles.{config_0, config_1, config_2}

abbrev pub cluster_1 : Clock → Object
cluster_1 clock =
    ("id", str clus_orders_us_east)
    ∷ ("name", str "orders-db")
    ∷ ("namespace", str "pg-clusters")
    ∷ ("satellite_id", str sat_edge1)
    ∷ ("state", str "running")
    ∷ ("paused", bool false)
    ∷ ("config", str (config_0 clock))
    ∷ ("deployment_rule_id", str rule_prod_us)
    ∷ ("config_version", num 3)
    ∷ ("created_at", str (clock.ago 2419200))
    ∷ ("updated_at", str (clock.ago 60))
    ∷ []

abbrev pub cluster_2 : Clock → Object
cluster_2 clock =
    ("id", str clus_orders_eu_west)
    ∷ ("name", str "orders-db")
    ∷ ("namespace", str "pg-clusters")
    ∷ ("satellite_id", str sat_edge2)
    ∷ ("state", str "running")
    ∷ ("paused", bool false)
    ∷ ("config", str (config_0 clock))
    ∷ ("deployment_rule_id", str rule_prod_eu)
    ∷ ("config_version", num 3)
    ∷ ("created_at", str (clock.ago 2160000))
    ∷ ("updated_at", str (clock.ago 45))
    ∷ []

abbrev pub cluster_3 : Clock → Object
cluster_3 clock =
    ("id", str clus_staging_ap)
    ∷ ("name", str "staging-db")
    ∷ ("namespace", str "staging")
    ∷ ("satellite_id", str sat_edge3)
    ∷ ("state", str "running")
    ∷ ("paused", bool false)
    ∷ ("config", str (config_1 clock))
    ∷ ("deployment_rule_id", str rule_staging)
    ∷ ("config_version", num 1)
    ∷ ("created_at", str (clock.ago 1209600))
    ∷ ("updated_at", str (clock.ago 90))
    ∷ []

abbrev pub cluster_4 : Clock → Object
cluster_4 clock =
    ("id", str clus_orders_us_west)
    ∷ ("name", str "orders-db")
    ∷ ("namespace", str "pg-clusters")
    ∷ ("satellite_id", str sat_edge4)
    ∷ ("state", str "degraded")
    ∷ ("paused", bool false)
    ∷ ("config", str (config_0 clock))
    ∷ ("deployment_rule_id", null)
    ∷ ("config_version", num 2)
    ∷ ("created_at", str (clock.ago 1728000))
    ∷ ("updated_at", str (clock.ago 300))
    ∷ []

abbrev pub cluster_5 : Clock → Object
cluster_5 clock =
    ("id", str clus_analytics_us)
    ∷ ("name", str "analytics-db")
    ∷ ("namespace", str "pg-clusters")
    ∷ ("satellite_id", str sat_edge1)
    ∷ ("state", str "creating")
    ∷ ("paused", bool false)
    ∷ ("config", str (config_2 clock))
    ∷ ("deployment_rule_id", null)
    ∷ ("config_version", num 1)
    ∷ ("created_at", str (clock.ago 180))
    ∷ ("updated_at", str (clock.ago 60))
    ∷ []

abbrev pub cluster_6 : Clock → Object
cluster_6 clock =
    ("id", str clus_payments_us)
    ∷ ("name", str "payments-db")
    ∷ ("namespace", str "pg-clusters")
    ∷ ("satellite_id", str sat_edge1)
    ∷ ("state", str "running")
    ∷ ("paused", bool false)
    ∷ ("config", str (config_0 clock))
    ∷ ("deployment_rule_id", str rule_prod_us)
    ∷ ("config_version", num 2)
    ∷ ("created_at", str (clock.ago 1900800))
    ∷ ("updated_at", str (clock.ago 30))
    ∷ []

abbrev pub cluster_7 : Clock → Object
cluster_7 clock =
    ("id", str clus_payments_eu)
    ∷ ("name", str "payments-db")
    ∷ ("namespace", str "pg-clusters")
    ∷ ("satellite_id", str sat_edge2)
    ∷ ("state", str "running")
    ∷ ("paused", bool false)
    ∷ ("config", str (config_0 clock))
    ∷ ("deployment_rule_id", str rule_prod_eu)
    ∷ ("config_version", num 2)
    ∷ ("created_at", str (clock.ago 1900800))
    ∷ ("updated_at", str (clock.ago 35))
    ∷ []

abbrev pub cluster_8 : Clock → Object
cluster_8 clock =
    ("id", str clus_inventory_us)
    ∷ ("name", str "inventory-db")
    ∷ ("namespace", str "pg-clusters")
    ∷ ("satellite_id", str sat_edge1)
    ∷ ("state", str "running")
    ∷ ("paused", bool false)
    ∷ ("config", str (config_0 clock))
    ∷ ("deployment_rule_id", str rule_prod_us)
    ∷ ("config_version", num 1)
    ∷ ("created_at", str (clock.ago 1555200))
    ∷ ("updated_at", str (clock.ago 50))
    ∷ []

abbrev pub cluster_9 : Clock → Object
cluster_9 clock =
    ("id", str clus_inventory_ap)
    ∷ ("name", str "inventory-db")
    ∷ ("namespace", str "pg-clusters")
    ∷ ("satellite_id", str sat_edge3)
    ∷ ("state", str "running")
    ∷ ("paused", bool false)
    ∷ ("config", str (config_1 clock))
    ∷ ("deployment_rule_id", str rule_staging)
    ∷ ("config_version", num 1)
    ∷ ("created_at", str (clock.ago 1036800))
    ∷ ("updated_at", str (clock.ago 70))
    ∷ []

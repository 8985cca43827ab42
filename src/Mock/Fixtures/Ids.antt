-- ===== src/Mock/Fixtures/Ids.antt =====
-- `SAT_IDS`, `PROFILE_IDS`, `RULE_IDS` and `CLUSTER_IDS` of dashboard/mock/data.js.
use pg_swarm.Base.{String}

abbrev pub sat_edge1 : String
sat_edge1 = "sat-a1b2c3d4-0001-4000-8000-000000000001"

abbrev pub sat_edge2 : String
sat_edge2 = "sat-a1b2c3d4-0002-4000-8000-000000000002"

abbrev pub sat_edge3 : String
sat_edge3 = "sat-a1b2c3d4-0003-4000-8000-000000000003"

abbrev pub sat_edge4 : String
sat_edge4 = "sat-a1b2c3d4-0004-4000-8000-000000000004"

abbrev pub sat_edge5 : String
sat_edge5 = "sat-a1b2c3d4-0005-4000-8000-000000000005"

abbrev pub prof_prod : String
prof_prod = "prof-00000001-0000-4000-8000-000000000001"

abbrev pub prof_staging : String
prof_staging = "prof-00000002-0000-4000-8000-000000000002"

abbrev pub prof_minimal : String
prof_minimal = "prof-00000003-0000-4000-8000-000000000003"

abbrev pub rule_prod_us : String
rule_prod_us = "rule-00000001-0000-4000-8000-000000000001"

abbrev pub rule_prod_eu : String
rule_prod_eu = "rule-00000002-0000-4000-8000-000000000002"

abbrev pub rule_staging : String
rule_staging = "rule-00000003-0000-4000-8000-000000000003"

abbrev pub clus_orders_us_east : String
clus_orders_us_east = "clus-00000001-0000-4000-8000-000000000001"

abbrev pub clus_orders_eu_west : String
clus_orders_eu_west = "clus-00000002-0000-4000-8000-000000000002"

abbrev pub clus_staging_ap : String
clus_staging_ap = "clus-00000003-0000-4000-8000-000000000003"

abbrev pub clus_orders_us_west : String
clus_orders_us_west = "clus-00000004-0000-4000-8000-000000000004"

abbrev pub clus_analytics_us : String
clus_analytics_us = "clus-00000005-0000-4000-8000-000000000005"

abbrev pub clus_payments_us : String
clus_payments_us = "clus-00000006-0000-4000-8000-000000000006"

abbrev pub clus_payments_eu : String
clus_payments_eu = "clus-00000007-0000-4000-8000-000000000007"

abbrev pub clus_inventory_us : String
clus_inventory_us = "clus-00000008-0000-4000-8000-000000000008"

abbrev pub clus_inventory_ap : String
clus_inventory_ap = "clus-00000009-0000-4000-8000-000000000009"

abbrev pub clus_sessions_us : String
clus_sessions_us = "clus-0000000a-0000-4000-8000-000000000010"

abbrev pub clus_sessions_eu : String
clus_sessions_eu = "clus-0000000b-0000-4000-8000-000000000011"

abbrev pub clus_audit_us : String
clus_audit_us = "clus-0000000c-0000-4000-8000-000000000012"

abbrev pub clus_cache_us : String
clus_cache_us = "clus-0000000d-0000-4000-8000-000000000013"

abbrev pub clus_cache_eu : String
clus_cache_eu = "clus-0000000e-0000-4000-8000-000000000014"

abbrev pub clus_metrics_us : String
clus_metrics_us = "clus-0000000f-0000-4000-8000-000000000015"

abbrev pub clus_notify_us : String
clus_notify_us = "clus-00000010-0000-4000-8000-000000000016"

abbrev pub clus_search_ap : String
clus_search_ap = "clus-00000011-0000-4000-8000-000000000017"

-- ===== src/Mock/Fixtures/Profiles.antt =====
-- `profiles` and `deploymentRules` of dashboard/mock/data.js.
use pg_swarm.Base.{String, true, false, List, [], ◌∷◌}
use pg_swarm.Js.{bool, num, str, obj, end, Object}
use pg_swarm.Mock.Fixtures.{Clock, fields}
use pg_swarm.Mock.Fixtures.Ids.{
  prof_prod, prof_staging, prof_minimal, rule_prod_us, rule_prod_eu, rule_staging,
}

-- the text under `config` of profile 1
abbrev pub config_0 : Clock → String
config_0 clock = clock.stringify (
    obj (
      fields (
        (
          "postgres",
          obj (fields (("version", str "17") ∷ ("image", str "postgres:17-alpine") ∷ [])),
        )
        ∷ ("storage", obj (fields (("size", str "50Gi") ∷ ("storage_class", str "tier:fast") ∷ [])))
        ∷ (
          "wal_storage",
          obj (fields (("size", str "10Gi") ∷ ("storage_class", str "tier:fast") ∷ [])),
        )
        ∷ ("replicas", num 3)
        ∷ (
          "resources",
          obj (
              fields (
                ("cpu_request", str "500m")
                ∷ ("cpu_limit", str "2")
                ∷ ("memory_request", str "1Gi")
                ∷ ("memory_limit", str "4Gi")
                ∷ [])),
        )
        ∷ (
          "failover",
          obj (fields (("enabled", bool true) ∷ ("health_check_interval_seconds", num 5) ∷ [])),
        )
        ∷ (
          "archive",
          obj (
              fields (
                ("mode", str "custom")
                ∷ ("archive_command", str "aws s3 cp %p s3://backups/wal/%f")
                ∷ ("restore_command", str "aws s3 cp s3://backups/wal/%f %p")
                ∷ [])),
        )
        ∷ (
          "pg_params",
          obj (
              fields (
                ("shared_buffers", str "1GB")
                ∷ ("work_mem", str "64MB")
                ∷ ("max_connections", str "200")
                ∷ [])),
        )
        ∷ [])))

abbrev pub profile_1 : Clock → Object
profile_1 clock =
    ("id", str prof_prod)
    ∷ ("name", str "production-ha")
    ∷ ("locked", bool false)
    ∷ ("event_rule_set_id", str "rs-prod-strict")
    ∷ ("config", str (config_0 clock))
    ∷ ("created_at", str (clock.ago 2592000))
    ∷ ("updated_at", str (clock.ago 172800))
    ∷ []

-- the text under `config` of profile 2
abbrev pub config_1 : Clock → String
config_1 clock = clock.stringify (
    obj (
      fields (
        (
          "postgres",
          obj (fields (("version", str "17") ∷ ("image", str "postgres:17-alpine") ∷ [])),
        )
        ∷ ("storage", obj (fields (("size", str "20Gi") ∷ [])))
        ∷ ("replicas", num 2)
        ∷ (
          "resources",
          obj (
              fields (
                ("cpu_request", str "250m")
                ∷ ("cpu_limit", str "1")
                ∷ ("memory_request", str "512Mi")
                ∷ ("memory_limit", str "2Gi")
                ∷ [])),
        )
        ∷ ("failover", obj (fields (("enabled", bool true) ∷ [])))
        ∷ ("pg_params", obj (fields (("shared_buffers", str "256MB") ∷ [])))
        ∷ [])))

abbrev pub profile_2 : Clock → Object
profile_2 clock =
    ("id", str prof_staging)
    ∷ ("name", str "staging")
    ∷ ("locked", bool false)
    ∷ ("event_rule_set_id", str "rs-default")
    ∷ ("config", str (config_1 clock))
    ∷ ("created_at", str (clock.ago 1728000))
    ∷ ("updated_at", str (clock.ago 432000))
    ∷ []

-- the text under `config` of profile 3
abbrev pub config_2 : Clock → String
config_2 clock = clock.stringify (
    obj (
      fields (
        ("postgres", obj (fields (("version", str "16") ∷ ("image", str "postgres:16") ∷ [])))
        ∷ ("storage", obj (fields (("size", str "5Gi") ∷ [])))
        ∷ ("replicas", num 1)
        ∷ ("resources", obj end)
        ∷ ("failover", obj (fields (("enabled", bool false) ∷ [])))
        ∷ [])))

abbrev pub profile_3 : Clock → Object
profile_3 clock =
    ("id", str prof_minimal)
    ∷ ("name", str "dev-single")
    ∷ ("locked", bool false)
    ∷ ("config", str (config_2 clock))
    ∷ ("created_at", str (clock.ago 864000))
    ∷ ("updated_at", str (clock.ago 864000))
    ∷ []

-- `profiles`
unfoldable pub profiles : Clock → List Object
profiles clock = profile_1 clock ∷ profile_2 clock ∷ profile_3 clock ∷ []

abbrev pub rule_for_1 : Clock → Object
rule_for_1 clock =
    ("id", str rule_prod_us)
    ∷ ("name", str "prod-india-south")
    ∷ ("namespace", str "pg-clusters")
    ∷ ("cluster_name", str "orders-db")
    ∷ ("profile_id", str prof_prod)
    ∷ (
      "label_selector",
      obj (fields (("region", str "india-south-1") ∷ ("tier", str "production") ∷ [])),
    )
    ∷ ("created_at", str (clock.ago 2419200))
    ∷ ("updated_at", str (clock.ago 172800))
    ∷ []

abbrev pub rule_for_2 : Clock → Object
rule_for_2 clock =
    ("id", str rule_prod_eu)
    ∷ ("name", str "prod-india-north")
    ∷ ("namespace", str "pg-clusters")
    ∷ ("cluster_name", str "orders-db")
    ∷ ("profile_id", str prof_prod)
    ∷ (
      "label_selector",
      obj (fields (("region", str "india-north-1") ∷ ("tier", str "production") ∷ [])),
    )
    ∷ ("created_at", str (clock.ago 2160000))
    ∷ ("updated_at", str (clock.ago 259200))
    ∷ []

abbrev pub rule_for_3 : Clock → Object
rule_for_3 clock =
    ("id", str rule_staging)
    ∷ ("name", str "staging-india-west")
    ∷ ("namespace", str "staging")
    ∷ ("cluster_name", str "staging-db")
    ∷ ("profile_id", str prof_staging)
    ∷ (
      "label_selector",
      obj (fields (("region", str "india-west-1") ∷ ("tier", str "staging") ∷ [])),
    )
    ∷ ("created_at", str (clock.ago 1209600))
    ∷ ("updated_at", str (clock.ago 604800))
    ∷ []

-- `deploymentRules`
unfoldable pub deployment_rules : Clock → List Object
deployment_rules clock = rule_for_1 clock ∷ rule_for_2 clock ∷ rule_for_3 clock ∷ []

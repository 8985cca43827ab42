-- ===== src/Mock/Fixtures/Satellites.antt =====
-- `satellites` of dashboard/mock/data.js.
use pg_swarm.Base.{true, false, List, [], ◌∷◌}
use pg_swarm.Js.{null, bool, str, arr, obj, nil, end, Object}
use pg_swarm.Mock.Fixtures.{Clock, fields, items}
use pg_swarm.Mock.Fixtures.Ids.{sat_edge1, sat_edge2, sat_edge3, sat_edge4, sat_edge5}

abbrev pub satellite_1 : Clock → Object
satellite_1 clock =
    ("id", str sat_edge1)
    ∷ ("hostname", str "edge-node-india-south-1a")
    ∷ ("k8s_cluster_name", str "edge-india-south")
    ∷ ("region", str "india-south-1")
    ∷ ("state", str "connected")
    ∷ ("last_heartbeat", str (clock.ago 5))
    ∷ (
      "labels",
      obj (
          fields (
            ("region", str "india-south-1")
            ∷ ("tier", str "production")
            ∷ ("rack", str "r1")
            ∷ [])),
    )
    ∷ (
      "storage_classes",
      arr (
          items (
            (obj (
              fields (
                ("name", str "gp3")
                ∷ ("provisioner", str "ebs.csi.aws.com")
                ∷ ("reclaim_policy", str "Delete")
                ∷ ("volume_binding_mode", str "WaitForFirstConsumer")
                ∷ ("is_default", bool true)
                ∷ [])))
            ∷ (obj (
                fields (
                  ("name", str "io2")
                  ∷ ("provisioner", str "ebs.csi.aws.com")
                  ∷ ("reclaim_policy", str "Delete")
                  ∷ ("volume_binding_mode", str "WaitForFirstConsumer")
                  ∷ ("is_default", bool false)
                  ∷ [])))
            ∷ (obj (
                fields (
                  ("name", str "local-nvme")
                  ∷ ("provisioner", str "kubernetes.io/no-provisioner")
                  ∷ ("reclaim_policy", str "Retain")
                  ∷ ("volume_binding_mode", str "WaitForFirstConsumer")
                  ∷ ("is_default", bool false)
                  ∷ [])))
            ∷ [])),
    )
    ∷ (
      "tier_mappings",
      obj (
          fields (
            ("fast", str "local-nvme") ∷ ("standard", str "gp3") ∷ ("replicated", str "io2") ∷ [])),
    )
    ∷ ("created_at", str (clock.ago 2592000))
    ∷ ("updated_at", str (clock.ago 5))
    ∷ []

abbrev pub satellite_2 : Clock → Object
satellite_2 clock =
    ("id", str sat_edge2)
    ∷ ("hostname", str "edge-node-india-north-1b")
    ∷ ("k8s_cluster_name", str "edge-india-north")
    ∷ ("region", str "india-north-1")
    ∷ ("state", str "connected")
    ∷ ("last_heartbeat", str (clock.ago 8))
    ∷ (
      "labels",
      obj (
          fields (
            ("region", str "india-north-1")
            ∷ ("tier", str "production")
            ∷ ("rack", str "r2")
            ∷ [])),
    )
    ∷ (
      "storage_classes",
      arr (
          items (
            (obj (
              fields (
                ("name", str "gp3")
                ∷ ("provisioner", str "ebs.csi.aws.com")
                ∷ ("reclaim_policy", str "Delete")
                ∷ ("volume_binding_mode", str "WaitForFirstConsumer")
                ∷ ("is_default", bool true)
                ∷ [])))
            ∷ (obj (
                fields (
                  ("name", str "standard")
                  ∷ ("provisioner", str "kubernetes.io/aws-ebs")
                  ∷ ("reclaim_policy", str "Delete")
                  ∷ ("volume_binding_mode", str "Immediate")
                  ∷ ("is_default", bool false)
                  ∷ [])))
            ∷ [])),
    )
    ∷ ("tier_mappings", obj (fields (("fast", str "gp3") ∷ ("standard", str "standard") ∷ [])))
    ∷ ("created_at", str (clock.ago 2160000))
    ∷ ("updated_at", str (clock.ago 8))
    ∷ []

abbrev pub satellite_3 : Clock → Object
satellite_3 clock =
    ("id", str sat_edge3)
    ∷ ("hostname", str "edge-node-india-west-1a")
    ∷ ("k8s_cluster_name", str "edge-india-west")
    ∷ ("region", str "india-west-1")
    ∷ ("state", str "connected")
    ∷ ("last_heartbeat", str (clock.ago 12))
    ∷ ("labels", obj (fields (("region", str "india-west-1") ∷ ("tier", str "staging") ∷ [])))
    ∷ (
      "storage_classes",
      arr (
          items (
            (obj (
              fields (
                ("name", str "gp3")
                ∷ ("provisioner", str "ebs.csi.aws.com")
                ∷ ("reclaim_policy", str "Delete")
                ∷ ("volume_binding_mode", str "WaitForFirstConsumer")
                ∷ ("is_default", bool true)
                ∷ [])))
            ∷ [])),
    )
    ∷ ("tier_mappings", obj (fields (("standard", str "gp3") ∷ [])))
    ∷ ("created_at", str (clock.ago 1296000))
    ∷ ("updated_at", str (clock.ago 12))
    ∷ []

abbrev pub satellite_4 : Clock → Object
satellite_4 clock =
    ("id", str sat_edge4)
    ∷ ("hostname", str "edge-node-india-east-1c")
    ∷ ("k8s_cluster_name", str "edge-india-east")
    ∷ ("region", str "india-east-1")
    ∷ ("state", str "offline")
    ∷ ("last_heartbeat", str (clock.ago 300))
    ∷ ("labels", obj (fields (("region", str "india-east-1") ∷ ("tier", str "production") ∷ [])))
    ∷ (
      "storage_classes",
      arr (
          items (
            (obj (
              fields (
                ("name", str "gp3")
                ∷ ("provisioner", str "ebs.csi.aws.com")
                ∷ ("reclaim_policy", str "Delete")
                ∷ ("volume_binding_mode", str "WaitForFirstConsumer")
                ∷ ("is_default", bool true)
                ∷ [])))
            ∷ (obj (
                fields (
                  ("name", str "io1")
                  ∷ ("provisioner", str "ebs.csi.aws.com")
                  ∷ ("reclaim_policy", str "Delete")
                  ∷ ("volume_binding_mode", str "WaitForFirstConsumer")
                  ∷ ("is_default", bool false)
                  ∷ [])))
            ∷ [])),
    )
    ∷ ("tier_mappings", obj (fields (("fast", str "io1") ∷ ("standard", str "gp3") ∷ [])))
    ∷ ("created_at", str (clock.ago 1728000))
    ∷ ("updated_at", str (clock.ago 300))
    ∷ []

abbrev pub satellite_5 : Clock → Object
satellite_5 clock =
    ("id", str sat_edge5)
    ∷ ("hostname", str "edge-node-india-central-1a")
    ∷ ("k8s_cluster_name", str "edge-india-central")
    ∷ ("region", str "india-central-1")
    ∷ ("state", str "pending")
    ∷ ("last_heartbeat", null)
    ∷ ("labels", obj end)
    ∷ ("storage_classes", arr nil)
    ∷ ("tier_mappings", obj end)
    ∷ ("created_at", str (clock.ago 120))
    ∷ ("updated_at", str (clock.ago 120))
    ∷ []

-- `satellites`
unfoldable pub satellites : Clock → List Object
satellites clock =
    satellite_1 clock
    ∷ satellite_2 clock
    ∷ satellite_3 clock
    ∷ satellite_4 clock
    ∷ satellite_5 clock
    ∷ []

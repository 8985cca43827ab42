-- ===== src/Mock/Fixtures/Clusters.antt =====
-- `clusters` of dashboard/mock/data.js.
mod First
mod Second
use pg_swarm.Base.{List, [], ◌∷◌}
use pg_swarm.Js.{Object}
use pg_swarm.Mock.Fixtures.{Clock}
use First.{
  cluster_1, cluster_2, cluster_3, cluster_4, cluster_5, cluster_6, cluster_7, cluster_8, cluster_9,
}
use Second.{
  cluster_10, cluster_11, cluster_12, cluster_13, cluster_14, cluster_15, cluster_16, cluster_17,
}

-- `clusters`
unfoldable pub clusters : Clock → List Object
clusters clock =
    cluster_1 clock
    ∷ cluster_2 clock
    ∷ cluster_3 clock
    ∷ cluster_4 clock
    ∷ cluster_5 clock
    ∷ cluster_6 clock
    ∷ cluster_7 clock
    ∷ cluster_8 clock
    ∷ cluster_9 clock
    ∷ cluster_10 clock
    ∷ cluster_11 clock
    ∷ cluster_12 clock
    ∷ cluster_13 clock
    ∷ cluster_14 clock
    ∷ cluster_15 clock
    ∷ cluster_16 clock
    ∷ cluster_17 clock
    ∷ []

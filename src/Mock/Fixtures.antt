-- ===== src/Mock/Fixtures.antt =====
-- The fixtures of dashboard/mock/data.js that the mock server starts with; the children hold them.
pub mod Ids
pub mod Satellites
pub mod Profiles
pub mod Clusters
pub mod Catalog
pub mod Params
pub mod Events
pub mod Handlers
pub mod Start
pub use pg_swarm.Js.Props.{fields, items}
use pg_swarm.Base.{ℕ, String}
use pg_swarm.Js.{Value}

-- What the fixtures read of their host: `ago(seconds)`, the ISO text of a time that lies in the
-- past, and `JSON.stringify`.
pub record Clock : Type 0 where
  pub ago : ℕ → String
  pub stringify : Value → String

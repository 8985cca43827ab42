-- ===== src/Data.antt =====
-- dashboard/src/context/DataContext.jsx: the data of all pages, loaded by REST or pushed by
-- WebSocket, and the operations in progress that the server reports.
pub mod Connection
pub mod Operations
use pg_swarm.Base.{ℕ, String, Bool, true, false, Option, none, some, List, []}
use pg_swarm.Js.{Object}

-- The keys of the context's data.
pub data Source : Type 0 where
  satellites clusters health events profiles deployment_rules postgres_versions : Source
  postgres_variants storage_tiers event_rule_sets event_rules event_actions : Source
  event_handlers backup_stores : Source

abbrev pub Snapshot : Type 0
Snapshot = Source → List Object

-- `EMPTY`
unfoldable pub empty : Snapshot
empty source = []

-- `xs || []` of a result that is null where the request failed, or undefined
abbrev pub or_empty : Option (List Object) → List Object
or_empty none = []
or_empty (some xs) = xs

-- The `setData` of `refresh`, and of `applyWsState`: every key is written.
unfoldable pub collect : (Source → Option (List Object)) → Snapshot
collect results source = or_empty (results source)

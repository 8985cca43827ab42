-- ===== src/Switchover.antt =====
-- The switchover of a cluster in the dashboard: dashboard/src/pages/ClusterDetail.jsx starts it,
-- merges what it knows with what the server pushes, and simulates it where the server does not
-- run it; dashboard/src/components/SwitchoverProgressModal.jsx shows it.
pub mod Modal
pub mod Merge
pub mod Simulation
use pg_swarm.Base.{Option, none, some}
use pg_swarm.Js.{Value, undefined}
use pg_swarm.Data.Operations.{Operation}

-- `o.k` of an operation, where the property may be missing
abbrev pub read : Option Value → Value
read none = undefined
read (some v) = v

-- `{}`
abbrev pub blank : Operation
blank = record {
  operation_id = none;
  cluster_name = none;
  primary_pod = none;
  target_pod = none;
  waiting_for_user = none;
  started = none;
  done = none;
  success = none;
  error = none;
  steps = none;
  log = none;
}

-- `x || {}`
abbrev pub or_blank : Option Operation → Operation
or_blank none = blank
or_blank (some op) = op

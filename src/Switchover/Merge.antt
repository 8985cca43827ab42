-- ===== src/Switchover/Merge.antt =====
-- `switchoverOp` of dashboard/src/pages/ClusterDetail.jsx: the local operation and the one that the
-- server pushes, merged.
pub mod Laws
use pg_swarm.Base.{ℕ, Bool, Option, none, some, List, [], ◌∷◌}
use pg_swarm.Base.Assoc.{insert}
use pg_swarm.Js.{Value, or_else}
use pg_swarm.Data.Operations.{StepInfo, LogEntry, Operation, by_number, list_or_empty}
use pg_swarm.Switchover.{read, or_blank}

-- `{ ...local, ...ws }` at one property
abbrev pub over : Option Value → Option Value → Option Value
over local none = local
over local (some v) = some v

-- `a || b`
abbrev pub either : Option Value → Option Value → Option Value
either a b = some (or_else (read a) (read b))

-- The loop over `Object.keys(wsSteps)`. `{ ...localSteps[k], ...wsSteps[k] }` is `wsSteps[k]`, since
-- both carry the same properties.
unfoldable pub merge_steps : List (ℕ × StepInfo) → List (ℕ × StepInfo) → List (ℕ × StepInfo)
merge_steps merged [] = merged
merge_steps merged ((k, s) ∷ ws) = merge_steps (insert by_number k s merged) ws

-- `wsLog.length > 0 ? wsLog : localLog`
abbrev pub merge_log : List LogEntry → List LogEntry → List LogEntry
merge_log local [] = local
merge_log local (e ∷ ws) = e ∷ ws

unfoldable pub merge : Option Operation → Option Operation → Operation
unfolding merge_steps
merge local? ws? =
    let local = or_blank local? in
    let ws = or_blank ws? in
    record {
      operation_id = over local.operation_id ws.operation_id;
      cluster_name = over local.cluster_name ws.cluster_name;
      primary_pod = either ws.primary_pod local.primary_pod;
      target_pod = either ws.target_pod local.target_pod;
      waiting_for_user = over local.waiting_for_user ws.waiting_for_user;
      started = either local.started ws.started;
      done = over local.done ws.done;
      success = over local.success ws.success;
      error = over local.error ws.error;
      steps = some (merge_steps (list_or_empty local.steps) (list_or_empty ws.steps));
      log = some (merge_log (list_or_empty local.log) (list_or_empty ws.log));
    }

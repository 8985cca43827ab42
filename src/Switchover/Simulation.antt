-- ===== src/Switchover/Simulation.antt =====
-- `startMockSimulation` of dashboard/src/pages/ClusterDetail.jsx: the timer that plays a switchover
-- where the server does not run one. React may run the function given to `setSwitchoverOpLocal`
-- at once or later, when the callback of the timer has already changed `phase` and `idx`; each
-- tick says which. The second run of the function that React makes in development is not modelled.
pub mod Laws
use Prim.Native.Nat.{zero}
use pg_swarm.Base.{
  ℕ, suc, ◌+◌, String, Bool, true, false, Option, none, some, List, [], ◌∷◌, ◌++◌, ◌==◌, ◌&&◌,
  if◌then◌else◌, get_elem?, eqb, leb, not,
}
use pg_swarm.Base.Assoc.{insert}
use pg_swarm.Js.{Value, null, str, bool}
use pg_swarm.Js.Text.{to_text, ◌⧺◌}
use pg_swarm.Data.Operations.{StepInfo, LogEntry, Operation, by_number, list_or_empty}
use pg_swarm.Switchover.{read}

-- `opLocal` of `requestSwitchover`
unfoldable pub requested : Value → Value → Value → Operation
requested cluster primary target = record {
  operation_id = some null;
  cluster_name = some cluster;
  primary_pod = some primary;
  target_pod = some target;
  waiting_for_user = none;
  started = some (bool false);
  done = some (bool false);
  success = some (bool false);
  error = some null;
  steps = some [];
  log = some [];
}

-- `updated` of `startSwitchover`, once it has an id
unfoldable pub begun : Value → Operation → Operation
begun id op = record op { started = some (bool true); operation_id = some id }

-- An element of `stepDefs`.
pub record StepDef : Type 0 where
  pub step : ℕ
  pub name : String
  pub pod : Value
  pub detail : String

abbrev step_def : ℕ → String → Value → String → StepDef
step_def n name pod detail = record { step = n; name = name; pod = pod; detail = detail }

-- `stepDefs`
unfoldable pub step_defs_of : Operation → List StepDef
step_defs_of op =
    let target = read op.target_pod in
    let primary = read op.primary_pod in
    step_def 1 "verify_target" target "role=replica, pod ready"
    ∷ step_def 2 "find_primary" primary ("primary: " ⧺ to_text primary)
    ∷ step_def 3 "check_status" target "in_recovery=true"
    ∷ step_def 4 "fence_primary" primary "fenced, connections drained"
    ∷ step_def 5 "checkpoint" primary "checkpoint completed"
    ∷ step_def 6 "transfer_lease" target
        ("lease " ⧺ to_text (read op.cluster_name) ⧺ "-leader transferred")
    ∷ step_def 7 "promote" target "pg_promote() succeeded, exited recovery"
    ∷ step_def 8 "label_pods" target (to_text target ⧺ "=primary, " ⧺ to_text primary ⧺ "=replica")
    ∷ step_def 9 "renew_lease" target ("lease renewed for " ⧺ to_text target)
    ∷ []

-- The variables of the closure, the state it writes, whether the interval runs, and whether the
-- update threw.
pub record Simulation : Type 0 where
  pub idx : ℕ
  pub phase : String
  pub running : Bool
  pub crashed : Bool
  pub op : Option Operation

-- `let idx = 0; let phase = 'starting'; … setInterval(…)`, after `setSwitchoverOpLocal(updated)`
abbrev pub start : Operation → Simulation
start op = record { idx = 0; phase = "starting"; running = true; crashed = false; op = some op }

abbrev detail_at : String → StepDef → Value
detail_at phase d = if phase == "completed" then str d.detail else str ""

abbrev pub sim_step : String → StepDef → StepInfo
sim_step phase d = record {
  step = d.step;
  step_name = str d.name;
  status = phase;
  target_pod = d.pod;
  error_message = detail_at phase d;
  ponr = bool (leb 7 d.step);
}

abbrev pub sim_entry : String → String → StepDef → LogEntry
sim_entry ts phase d = record {
  step = d.step;
  step_name = str d.name;
  status = phase;
  target_pod = d.pod;
  detail = detail_at phase d;
  ponr = bool (leb 7 d.step);
  timestamp = str ts;
}

-- The object the update returns, without the end of the operation.
abbrev pub played : String → String → StepDef → Operation → Operation
played ts phase d prev = record prev {
  steps = some (insert by_number d.step (sim_step phase d) (list_or_empty prev.steps));
  log = some (list_or_empty prev.log ++ sim_entry ts phase d ∷ []);
}

-- The function given to `setSwitchoverOpLocal`, on the `phase` and `idx` of the time it runs.
unfoldable pub update : String → Option StepDef → Simulation → Simulation
update ts d s = elim s.op [
  | none ↦ s
  | some prev ↦ elim d [
    | none ↦ record s { crashed = true }
    | some d ↦
        if s.phase == "completed" && eqb s.idx 8
        then record s {
          running = false;
          op = some (record (played ts s.phase d prev) {
            done = some (bool true);
            success = some (bool true);
          });
        }
        else record s { op = some (played ts s.phase d prev) }
  ]
]

-- The last statement of the callback.
unfoldable pub flip_phase : Simulation → Simulation
flip_phase s =
    if s.phase == "starting"
    then record s { phase = "completed" }
    else record s { phase = "starting"; idx = suc s.idx }

-- One call of the callback, with whether the update runs late, and the time. A crash unmounts the
-- page, which clears the interval.
unfoldable pub tick : List StepDef → Bool → String → Simulation → Simulation
unfolding update flip_phase
tick defs late ts s =
    let d = get_elem? defs s.idx in
    if s.running && not s.crashed
    then (if late then update ts d (flip_phase s) else flip_phase (update ts d s))
    else s

-- The first `n` ticks.
unfoldable pub ticks : List StepDef → (ℕ → Bool) → (ℕ → String) → ℕ → Simulation → Simulation
unfolding tick
ticks defs late clock zero s = s
ticks defs late clock (suc n) s = tick defs (late n) (clock n) (ticks defs late clock n s)

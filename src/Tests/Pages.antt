-- ===== src/Tests/Pages.antt =====
-- The theorems on the dashboard's data and its switchover, on concrete states.
use pg_swarm.Base.{
  Bool-cases, inl, inr, ◌==◌, if◌then◌else◌, ℕ, String, ◌≡◌, refl, true, false, some, none, List,
  [], ◌∷◌, ◌++◌, ◌≤◌, arith, ◌||◌,
}
use pg_swarm.Base.Assoc.{lookup}
use pg_swarm.Js.{undefined, str, bool, truthy}
use pg_swarm.Data.{empty}
use pg_swarm.Data.Connection.{
  Event, socket_opens, socket_closes, timer_fires, unmounts, connect, mounted, react, may_happen,
  Link, on_open,
}
use pg_swarm.Data.Connection.Laws.{
  Reaches, begins, goes_on, IsSound, Reaches-IsSound, reconnects, unmounts_leaves_polling,
}
use pg_swarm.Data.Operations.{
  LogEntry, StepInfo, Operation, Progress, Complete, by_number, list_or_empty, fresh, step_info,
  Received, Context, on_messages, full_state, switchover_progress, switchover_complete,
}
use pg_swarm.Data.Operations.Laws.{AllCoherent, on_messages-AllCoherent}
use pg_swarm.Data.Operations.Laws.Completion.{IsDone, complete-IsDone}
use pg_swarm.Data.Operations.Laws.History.{log_at, log_before, entries_since, log_at-on_messages}
use pg_swarm.Switchover.{read}
use pg_swarm.Switchover.Modal.{build_log_index, times_or, percent}
use pg_swarm.Switchover.Modal.Times.{last_value, starts, ends, explains, build_log_index-times}
use pg_swarm.Switchover.Modal.Percent.{percent_bounds}
use pg_swarm.Switchover.Merge.{merge}
use pg_swarm.Switchover.Merge.Laws.{first_some, is_empty, merge_parts}
use pg_swarm.Switchover.Simulation.Laws.{
  EndsWith, never, always, simulated, eager_simulation_completes, late_simulation_skips_steps,
}

abbrev open_link : Link
open_link = react socket_opens (connect true mounted)

open_reached : Reaches open_link
unfolding may_happen react connect on_open
open_reached = goes_on socket_opens (begins true) refl

Reaches-IsSound_example : IsSound open_link
Reaches-IsSound_example = Reaches-IsSound open_reached

reconnects_example :
    ((react socket_closes open_link).polling ≡ true)
    × (may_happen (timer_fires true) (react socket_closes open_link) ≡ true)
    × ((react socket_opens (react (timer_fires true) (react socket_closes open_link))).polling
        ≡ false)
    × ((react socket_opens (react (timer_fires true) (react socket_closes open_link))).connected
        ≡ true)
unfolding react connect on_open
reconnects_example = reconnects open_reached refl refl

unmounts_leaves_polling_example :
    (may_happen socket_closes (react unmounts open_link) ≡ true)
    × ((react socket_closes (react unmounts open_link)).polling ≡ true)
    × ((e : Event) → may_happen e (react socket_closes (react unmounts open_link)) ≡ false)
unfolding react connect on_open
unmounts_leaves_polling_example = unmounts_leaves_polling open_reached refl refl

abbrev step_of : ℕ → String → Progress
step_of n status = record {
  operation_id = "op-1";
  cluster_name = str "orders";
  step = n;
  step_name = str "promote";
  status = status;
  target_pod = str "orders-1";
  error_message = str "";
  point_of_no_return = bool true;
  waiting_for_user = bool false;
  timestamp = undefined;
}

abbrev ended : Complete
ended = record {
  operation_id = "op-1";
  cluster_name = str "orders";
  success = bool true;
  error = str "";
}

abbrev messages : List Received
messages =
    ("10:00", switchover_progress (step_of 7 "starting"))
    ∷ ("10:01", switchover_progress (step_of 7 "completed"))
    ∷ []

-- an operation as the server sends it: with a step and without a log
abbrev sent_operation : Operation
sent_operation = record (fresh "op-1" (some (str "orders"))) {
  done = some (bool true);
  steps = some ((7, step_info (step_of 7 "completed")) ∷ []);
  log = none;
}

abbrev whole_state : Received
whole_state = ("10:02", full_state (λ source. none) (some (("op-1", sent_operation) ∷ [])))

abbrev received : List Received
received = whole_state ∷ messages

abbrev at_start : Context
at_start = record { snapshot = empty; last_refresh = none; active_operations = [] }

sent_coherent : AllCoherent (("op-1", sent_operation) ∷ [])
unfolding lookup
sent_coherent id = elim (Bool-cases ("op-1" == id)) [
  | inl same ↦ rw same (λ n. tt)
  | inr other ↦ rw other tt
]

on_messages-AllCoherent_example : AllCoherent (on_messages received at_start).active_operations
unfolding lookup
on_messages-AllCoherent_example =
    on_messages-AllCoherent received at_start (sent_coherent, (tt, (tt, tt))) (λ id. tt)

log_at-on_messages_example :
    log_at "op-1" (on_messages received at_start).active_operations
    ≡ log_before "op-1" received (log_at "op-1" []) ++ entries_since "op-1" received
log_at-on_messages_example = log_at-on_messages "op-1" received at_start

complete-IsDone_example :
    IsDone "op-1"
      (on_messages (("10:03", switchover_complete ended) ∷ received) at_start).active_operations
unfolding lookup
complete-IsDone_example =
    complete-IsDone "10:03" ended received at_start ((sent_operation, refl, refl), (tt, (tt, tt)))

abbrev entry : String → String → String → LogEntry
entry status detail time = record {
  step = 7;
  step_name = str "promote";
  status = status;
  target_pod = str "orders-1";
  detail = str detail;
  ponr = bool true;
  timestamp = str time;
}

abbrev waiting : Operation
waiting = record (fresh "op-1" (some (str "orders"))) {
  started = some (bool true);
  waiting_for_user = some (bool true);
  steps = some ((7, promoted) ∷ []);
  log = some (entry "starting" "" "10:00" ∷ entry "completed" "promoted" "10:01" ∷ []);
}
  where
    promoted : StepInfo
    promoted = record {
      step = 7;
      step_name = str "promote";
      status = "completed";
      target_pod = str "orders-1";
      error_message = str "";
      ponr = bool true;
    }

percent_bounds_example : percent waiting ≤ 100
unfolding lookup
percent_bounds_example = percent_bounds waiting (refl, tt) (omega arith, omega arith, tt)

abbrev log : List LogEntry
log = list_or_empty waiting.log

build_log_index-times_example : times_or (lookup by_number 7 (build_log_index log)) ≡ record {
  started_at = last_value (starts 7) (λ e. e.timestamp) undefined log;
  ended_at = last_value (ends 7) (λ e. e.timestamp) undefined log;
  detail = last_value (explains 7) (λ e. e.detail) undefined log;
}
build_log_index-times_example = build_log_index-times 7 log

merge_parts_example :
    ((n : ℕ)
      → lookup by_number n (list_or_empty (merge none (some waiting)).steps)
        ≡ first_some (lookup by_number n (list_or_empty waiting.steps)) (lookup by_number n []))
    × (list_or_empty (merge none (some waiting)).log ≡ (if is_empty log then [] else log))
    × (truthy (read (merge none (some waiting)).started) ≡ (false || truthy (read waiting.started)))
unfolding lookup
merge_parts_example = merge_parts none (some waiting) (refl, tt)

eager_simulation_completes_example :
    EndsWith 9 (
      simulated never (λ n. "t") 20 (str "mock-1") (str "orders") (str "orders-0") (str "orders-1"))
eager_simulation_completes_example =
    eager_simulation_completes (λ n. "t") 20 (str "mock-1") (str "orders") (str "orders-0")
      (str "orders-1") (omega arith)

late_simulation_skips_steps_example :
    EndsWith 1 (
      simulated always
        (λ n. "t")
        17
        (str "mock-1")
        (str "orders")
        (str "orders-0")
        (str "orders-1"))
late_simulation_skips_steps_example =
    late_simulation_skips_steps (λ n. "t") 17 (str "mock-1") (str "orders") (str "orders-0")
      (str "orders-1") (omega arith)

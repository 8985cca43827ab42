-- ===== src/Switchover/Modal.antt =====
-- dashboard/src/components/SwitchoverProgressModal.jsx: what the modal computes from an operation.
pub mod Laws
pub mod Times
pub mod Percent
use pg_swarm.Base.{
  ℕ, suc, ◌+◌, ◌*◌, ◌/◌, String, Bool, true, false, not, Option, none, some, List, [], ◌∷◌, ◌==◌,
  ◌&&◌, ◌||◌, if◌then◌else◌, length, filter, any,
}
use pg_swarm.Base.Assoc.{lookup, insert, values}
use pg_swarm.Js.{Value, undefined, str, truthy, or_else}
use pg_swarm.Data.Operations.{StepInfo, LogEntry, Operation, by_number, list_or_empty}
use pg_swarm.Switchover.{read}

-- `TOTAL_STEPS`
abbrev pub total_steps : ℕ
total_steps = 9

-- `STEP_DEFS`: number, name and label
abbrev pub step_defs : List (ℕ × String × String)
step_defs =
    (1, "verify_target", "Verify target")
    ∷ (2, "find_primary", "Discover primary")
    ∷ (3, "check_status", "Check replica status")
    ∷ (4, "fence_primary", "Fence primary")
    ∷ (5, "checkpoint", "Checkpoint")
    ∷ (6, "transfer_lease", "Transfer lease")
    ∷ (7, "promote", "Promote replica")
    ∷ (8, "label_pods", "Label pods")
    ∷ (9, "renew_lease", "Renew lease")
    ∷ []

-- An entry of `buildLogIndex`; undefined where it was not written.
pub record StepTimes : Type 0 where
  pub started_at : Value
  pub ended_at : Value
  pub detail : Value

abbrev pub no_times : StepTimes
no_times = record { started_at = undefined; ended_at = undefined; detail = undefined }

abbrev pub times_or : Option StepTimes → StepTimes
times_or none = no_times
times_or (some t) = t

abbrev pub is_terminal : String → Bool
is_terminal status = status == "completed" || status == "failed" || status == "rolling_back"

abbrev with_start : LogEntry → StepTimes → StepTimes
with_start e t = if e.status == "starting" then record t { started_at = e.timestamp } else t

abbrev with_detail : LogEntry → StepTimes → StepTimes
with_detail e t = if truthy e.detail then record t { detail = e.detail } else t

abbrev with_end : LogEntry → StepTimes → StepTimes
with_end e t =
    if is_terminal e.status then with_detail e (record t { ended_at = e.timestamp }) else t

-- the two tests of the loop's body
unfoldable pub note_entry : LogEntry → StepTimes → StepTimes
note_entry e t = with_end e (with_start e t)

-- the loop of `buildLogIndex`
unfoldable pub index_from : List (ℕ × StepTimes) → List LogEntry → List (ℕ × StepTimes)
index_from map [] = map
index_from map (e ∷ log) =
    index_from (insert by_number e.step (note_entry e (times_or (lookup by_number e.step map))) map)
      log

-- `buildLogIndex`
unfoldable pub build_log_index : List LogEntry → List (ℕ × StepTimes)
unfolding index_from
build_log_index log = index_from [] log

-- `completedCount`
unfoldable pub completed_count : List (ℕ × StepInfo) → ℕ
completed_count steps = length (filter (λ (s : StepInfo). s.status == "completed") (values steps))

-- `failed`
unfoldable pub has_failed : List (ℕ × StepInfo) → Bool
has_failed steps = any (λ (s : StepInfo). s.status == "failed") (values steps)

-- `Math.round((completedCount / TOTAL_STEPS) * 100)`, in exact arithmetic: no value lies halfway
-- between two integers.
abbrev pub rounded_percent : ℕ → ℕ
rounded_percent count = (count * 200 + total_steps) / (2 * total_steps)

-- `pct`
unfoldable pub percent : Operation → ℕ
unfolding completed_count
percent op =
    if truthy (read op.done) && truthy (read op.success)
    then 100
    else rounded_percent (completed_count (list_or_empty op.steps))

abbrev step_begun : Option StepInfo → Bool
step_begun none = false
step_begun (some s) = s.status == "starting" || s.status == "completed"

-- `ponrReached`
unfoldable pub ponr_reached : List (ℕ × StepInfo) → Bool
ponr_reached steps = step_begun (lookup by_number 7 steps)

-- The detail that `StepRow` shows.
unfoldable pub row_detail : Option StepInfo → Option StepTimes → Value
row_detail step times = or_else (times_or times).detail (shown step)
  where
    shown : Option StepInfo → Value
    shown none = str ""
    shown (some s) =
        if truthy s.error_message && not (s.status == "starting") then s.error_message else str ""

-- The groups of buttons of the footer.
pub data Footer : Type 0 where
  cancel_start abort_continue running close : Footer

abbrev shown_if : Bool → Footer → List Footer → List Footer
shown_if b f rest = if b then f ∷ rest else rest

-- The conditions of the footer, one after the other.
unfoldable pub footers : Operation → List Footer
footers op =
    let started = truthy (read op.started) in
    let done = truthy (read op.done) in
    let waiting = truthy (read op.waiting_for_user) in
    shown_if (not started) cancel_start (
      shown_if (started && not done && waiting) abort_continue (
        shown_if (started && not done && not waiting) running
          (shown_if (started && done) close [])))

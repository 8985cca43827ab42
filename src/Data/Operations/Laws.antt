-- ===== src/Data/Operations/Laws.antt =====
-- What a sequence of messages makes of an operation: its steps agree with its log.
pub mod History
pub mod Completion
use pg_swarm.Base.{
  ℕ, String, ◌≡◌, refl, sym, ap, subst, ◌∙◌, Bool, true, false, Option, none, some, List, [], ◌∷◌,
  ◌++◌, ◌==◌, eq_iff, eq_refl, eqb, arith, if◌then◌else◌, Option-cases, Bool-cases, inl, inr, All,
}
use pg_swarm.Base.Assoc.{lookup, insert, lookup-insert}
use pg_swarm.Js.{Value, bool, or_else}
use pg_swarm.Data.Operations.{
  StepInfo, LogEntry, Operation, Operations, Progress, Complete, by_text, by_number, fresh,
  operation_or, list_or_empty, log_entry, step_info, advance, on_progress, finish, on_complete,
  Message, full_state, switchover_progress, switchover_complete, unknown, Received, Context,
  on_message, on_messages,
}

-- The entry that the log has last for a step.
abbrev pub last_for : ℕ → List LogEntry → Option LogEntry
last_for n [] = none
last_for n (e ∷ log) = elim (last_for n log) [
  | none ↦ if eqb e.step n then some e else none
  | some later ↦ some later
]

last_for-append :
    (n : ℕ) (log : List LogEntry) (e : LogEntry)
    → last_for n (log ++ e ∷ []) ≡ (if eqb e.step n then some e else last_for n log)
last_for-append n [] e = refl
last_for-append n (x ∷ log) e = ground (arith, last_for-append n log e)

-- What `steps` shows of a log entry.
abbrev pub info_of : LogEntry → StepInfo
info_of e = record {
  step = e.step;
  step_name = e.step_name;
  status = e.status;
  target_pod = e.target_pod;
  error_message = e.detail;
  ponr = e.ponr;
}

-- The step is as the entry says, if there is one.
abbrev pub IsShown : Option StepInfo → Option LogEntry → Type 0
IsShown step none = Unit
IsShown step (some e) = step ≡ some (info_of e)

-- `steps` shows for every step that the log has what the log says last about it.
abbrev pub IsCoherent : Operation → Type 0
IsCoherent op =
    (n : ℕ)
    → IsShown (lookup by_number n (list_or_empty op.steps)) (last_for n (list_or_empty op.log))

advance-IsCoherent :
    (now : String) (p : Progress) (op : Operation) → IsCoherent op → IsCoherent (advance now p op)
unfolding advance
advance-IsCoherent now p op h n =
    rw
      (
        lookup-insert by_number p.step n (step_info p) (list_or_empty op.steps),
        last_for-append n (list_or_empty op.log) (log_entry now p),
      )
      (elim (Bool-cases (eqb p.step n)) [ inl same ↦ rw same refl | inr other ↦ rw other (h n) ])

-- The messages about one operation, with the time at which each arrives.
pub data Update : Type 0 where
  progress : String → Progress → Update
  complete : Complete → Update

abbrev pub update_id : Update → String
update_id (progress now p) = p.operation_id
update_id (complete d) = d.operation_id

unfoldable pub apply : Update → Operations → Operations
unfolding on_progress on_complete
apply (progress now p) ops = on_progress now p ops
apply (complete d) ops = on_complete d ops

-- The operation that stands under an id, or the new one that a message makes of nothing.
pub start_of : Update → Option Operation → Operation
start_of (progress now p) found = operation_or found (fresh p.operation_id (some p.cluster_name))
start_of (complete d) found = operation_or found (fresh d.operation_id none)

pub change_of : Update → Operation → Operation
change_of (progress now p) op = advance now p op
change_of (complete d) op = finish d op

-- A message changes the operation that it names, and no other.
pub lookup-apply :
    (u : Update) (id : String) (ops : Operations)
    → lookup by_text id (apply u ops) ≡ (
        if update_id u == id
        then some (change_of u (start_of u (lookup by_text (update_id u) ops)))
        else lookup by_text id ops)
unfolding apply start_of change_of advance finish
lookup-apply (progress now p) id ops = lookup-insert by_text p.operation_id id _ ops
lookup-apply (complete d) id ops = lookup-insert by_text d.operation_id id _ ops

-- Every operation of the map is coherent.
abbrev pub IsCoherent? : Option Operation → Type 0
IsCoherent? none = Unit
IsCoherent? (some op) = IsCoherent op

abbrev pub AllCoherent : Operations → Type 0
AllCoherent ops = (id : String) → IsCoherent? (lookup by_text id ops)

fresh-IsCoherent : (id : String) (name : Option Value) → IsCoherent (fresh id name)
unfolding lookup
fresh-IsCoherent id name n = tt

start_of-IsCoherent :
    (u : Update) (found : Option Operation) → IsCoherent? found → IsCoherent (start_of u found)
unfolding start_of
start_of-IsCoherent (progress now p) none k = fresh-IsCoherent p.operation_id (some p.cluster_name)
start_of-IsCoherent (progress now p) (some op) k = k
start_of-IsCoherent (complete d) none k = fresh-IsCoherent d.operation_id none
start_of-IsCoherent (complete d) (some op) k = k

change_of-IsCoherent : (u : Update) (op : Operation) → IsCoherent op → IsCoherent (change_of u op)
unfolding change_of finish
change_of-IsCoherent (progress now p) op h = advance-IsCoherent now p op h
change_of-IsCoherent (complete d) op h = h

apply-AllCoherent : (u : Update) (ops : Operations) → AllCoherent ops → AllCoherent (apply u ops)
apply-AllCoherent u ops h id = rw (lookup-apply u id ops) (elim (Bool-cases (update_id u == id)) [
  | inl same ↦ rw same (change_of-IsCoherent u _ (start_of-IsCoherent u _ (h (update_id u))))
  | inr other ↦ rw other (h id)
])

-- A message with the whole state brings coherent operations, if any.
abbrev pub BringsCoherent : Received → Type 0
BringsCoherent (now, full_state state none) = Unit
BringsCoherent (now, full_state state (some new)) = AllCoherent new
BringsCoherent (now, _) = Unit

on_message-AllCoherent :
    (now : String) (m : Message) (c : Context)
    → BringsCoherent (now, m)
    → AllCoherent c.active_operations
    → AllCoherent (on_message now m c).active_operations
unfolding on_message apply
on_message-AllCoherent now (full_state state none) c g h = h
on_message-AllCoherent now (full_state state (some new)) c g h = g
on_message-AllCoherent now (switchover_progress p) c g h =
    apply-AllCoherent (progress now p) c.active_operations h
on_message-AllCoherent now (switchover_complete d) c g h =
    apply-AllCoherent (complete d) c.active_operations h
on_message-AllCoherent now unknown c g h = h

-- If for every operation each step that its log has is as the log says last, then that still holds
-- after any messages, provided that it holds for the operations that the messages with the whole
-- state bring, as it does for operations without a log.
pub on_messages-AllCoherent :
    (ms : List Received) (c : Context)
    → All BringsCoherent ms
    → AllCoherent c.active_operations
    → AllCoherent (on_messages ms c).active_operations
unfolding on_messages
on_messages-AllCoherent [] c g h = h
on_messages-AllCoherent ((now, m) ∷ ms) c g h =
    on_messages-AllCoherent ms (on_message now m c) g.1 (on_message-AllCoherent now m c g.0 h)

-- ===== src/Data/Operations/Laws/Completion.antt =====
-- What a completion message makes of an operation, whatever comes later.
use pg_swarm.Base.{
  String, ◌≡◌, refl, ◌∙◌, true, none, some, List, [], ◌∷◌, ◌==◌, Bool-cases, inl, inr, All, eq_iff,
  eq_refl,
}
use pg_swarm.Base.Assoc.{lookup}
use pg_swarm.Js.{bool}
use pg_swarm.Data.Operations.{
  Operation, Operations, Complete, by_text, advance, finish, Message, full_state,
  switchover_progress, switchover_complete, unknown, Received, Context, on_message, on_messages,
}
use pg_swarm.Data.Operations.Laws.{
  Update, progress, complete, update_id, apply, start_of, change_of, lookup-apply,
}

-- The operation under the id is done.
abbrev pub IsDone : String → Operations → Type 0
IsDone id ops = (op : Operation) × (lookup by_text id ops ≡ some op) × (op.done ≡ some (bool true))

done_of-change_of :
    (u : Update) (op : Operation)
    → op.done ≡ some (bool true)
    → (change_of u op).done ≡ some (bool true)
unfolding change_of advance finish
done_of-change_of (progress now p) op h = h
done_of-change_of (complete d) op h = refl

start_of-some : (u : Update) (op : Operation) → start_of u (some op) ≡ op
unfolding start_of
start_of-some (progress now p) op = refl
start_of-some (complete d) op = refl

apply-IsDone :
    (u : Update) (id : String) (ops : Operations) → IsDone id ops → IsDone id (apply u ops)
apply-IsDone u id ops (op, found, done) = elim (Bool-cases (update_id u == id)) [
  | inl same ↦
      let start = start_of u (lookup by_text (update_id u) ops) in
      (
        change_of u start,
        lookup-apply u id ops ∙ rw same refl,
        done_of-change_of u start
            (rw ((eq_iff (update_id u) id).0 same, found, start_of-some u op) done),
      )
  | inr other ↦ (op, lookup-apply u id ops ∙ (rw other found), done)
]

-- A message with the whole state brings the operation as done, if it brings any.
abbrev pub BringsDone : String → Received → Type 0
BringsDone id (now, full_state state none) = Unit
BringsDone id (now, full_state state (some new)) = IsDone id new
BringsDone id (now, _) = Unit

on_message-IsDone :
    (now : String) (m : Message) (id : String) (c : Context)
    → BringsDone id (now, m)
    → IsDone id c.active_operations
    → IsDone id (on_message now m c).active_operations
unfolding on_message apply
on_message-IsDone now (full_state state none) id c g h = h
on_message-IsDone now (full_state state (some new)) id c g h = g
on_message-IsDone now (switchover_progress p) id c g h =
    apply-IsDone (progress now p) id c.active_operations h
on_message-IsDone now (switchover_complete d) id c g h =
    apply-IsDone (complete d) id c.active_operations h
on_message-IsDone now unknown id c g h = h

on_messages-IsDone :
    (ms : List Received) (id : String) (c : Context)
    → All (BringsDone id) ms
    → IsDone id c.active_operations
    → IsDone id (on_messages ms c).active_operations
unfolding on_messages
on_messages-IsDone [] id c g h = h
on_messages-IsDone ((now, m) ∷ ms) id c g h =
    on_messages-IsDone ms id (on_message now m c) g.1 (on_message-IsDone now m id c g.0 h)

completed : (d : Complete) (ops : Operations) → IsDone d.operation_id (apply (complete d) ops)
completed d ops = (
  change_of (complete d) (start_of (complete d) (lookup by_text d.operation_id ops)),
  lookup-apply (complete d) d.operation_id ops ∙ (rw (eq_refl d.operation_id) refl),
  unfold change_of finish in refl,
)

-- Once a completion message has come, its operation is there and done after any later messages,
-- provided that those with the whole state that bring operations bring it as done.
pub complete-IsDone :
    (now : String) (d : Complete) (ms : List Received) (c : Context)
    → All (BringsDone d.operation_id) ms
    → IsDone d.operation_id (on_messages ((now, switchover_complete d) ∷ ms) c).active_operations
unfolding on_messages on_message apply
complete-IsDone now d ms c g =
    on_messages-IsDone ms d.operation_id (on_message now (switchover_complete d) c) g
      (completed d c.active_operations)

-- ===== src/Data/Operations/Laws/History.antt =====
-- What a sequence of messages makes of the log of an operation.
use pg_swarm.Base.{
  String, ◌≡◌, refl, sym, ◌∙◌, true, false, Option, none, some, List, [], ◌∷◌, ◌++◌, ◌==◌,
  if◌then◌else◌, Bool-cases, inl, inr, append_assoc, append-nil, any, ap, Bool, eq_iff, eq_refl,
}
use pg_swarm.Base.Assoc.{lookup}
use pg_swarm.Data.Operations.{
  LogEntry, Operation, Operations, by_text, list_or_empty, log_entry, advance, finish, Message,
  full_state, switchover_progress, switchover_complete, unknown, Received, Context, on_message,
  on_messages,
}
use pg_swarm.Data.Operations.Laws.{
  Update, progress, complete, update_id, apply, start_of, change_of, lookup-apply,
}

log_of : Option Operation → List LogEntry
log_of none = []
log_of (some op) = list_or_empty op.log

-- The log that stands under an id, empty if nothing does.
unfoldable pub log_at : String → Operations → List LogEntry
unfolding log_of
log_at id ops = log_of (lookup by_text id ops)

entry_of : String → Update → List LogEntry
entry_of id (progress now p) = if p.operation_id == id then log_entry now p ∷ [] else []
entry_of id (complete d) = []

log_of-change_of :
    (u : Update) (found : Option Operation)
    → log_of (some (change_of u (start_of u found))) ≡ log_of found ++ entry_of (update_id u) u
unfolding log_of change_of start_of entry_of advance finish
log_of-change_of (progress now p) none = rw (eq_refl p.operation_id) refl
log_of-change_of (progress now p) (some op) = rw (eq_refl p.operation_id) refl
log_of-change_of (complete d) none = refl
log_of-change_of (complete d) (some op) = sym (append-nil _)

entry_of_other : (id : String) (u : Update) → (update_id u == id) ≡ false → entry_of id u ≡ []
unfolding entry_of
entry_of_other id (progress now p) h = rw h refl
entry_of_other id (complete d) h = refl

log_at-apply :
    (id : String) (u : Update) (ops : Operations)
    → log_at id (apply u ops) ≡ log_at id ops ++ entry_of id u
unfolding log_at
log_at-apply id u ops = rw (lookup-apply u id ops) (elim (Bool-cases (update_id u == id)) [
  | inl same ↦
      rw (same, ← (eq_iff (update_id u) id).0 same)
        (log_of-change_of u (lookup by_text (update_id u) ops))
  | inr other ↦ rw (other, entry_of_other id u other) (sym (append-nil _))
])

-- A message with the whole state that brings operations.
unfoldable pub replaces : Received → Bool
replaces (now, full_state state (some new)) = true
replaces (now, _) = false

-- The log under the id after the last message that replaces the operations, or the given one.
unfoldable pub log_before : String → List Received → List LogEntry → List LogEntry
unfolding log_at
log_before id [] log = log
log_before id ((now, full_state state (some new)) ∷ ms) log = log_before id ms (log_at id new)
log_before id ((now, _) ∷ ms) log = log_before id ms log

-- The entry that a message has for an id.
unfoldable pub message_entry : String → Received → List LogEntry
message_entry id (now, switchover_progress p) =
    if p.operation_id == id then log_entry now p ∷ [] else []
message_entry id (now, _) = []

-- The entries for an id of the messages after the last one that replaces the operations.
unfoldable pub entries_since : String → List Received → List LogEntry
unfolding replaces message_entry
entries_since id [] = []
entries_since id (r ∷ ms) =
    let later = entries_since id ms in
    if any replaces ms then later else message_entry id r ++ later

log_before_replaced :
    (id : String) (ms : List Received) (log log' : List LogEntry)
    → any replaces ms ≡ true
    → log_before id ms log ≡ log_before id ms log'
unfolding log_before replaces
log_before_replaced id [] log log' h = cc
log_before_replaced id ((now, full_state state none) ∷ ms) log log' h =
    log_before_replaced id ms log log' h
log_before_replaced id ((now, full_state state (some new)) ∷ ms) log log' h = refl
log_before_replaced id ((now, switchover_progress p) ∷ ms) log log' h =
    log_before_replaced id ms log log' h
log_before_replaced id ((now, switchover_complete d) ∷ ms) log log' h =
    log_before_replaced id ms log log' h
log_before_replaced id ((now, unknown) ∷ ms) log log' h = log_before_replaced id ms log log' h

log_before_kept :
    (id : String) (ms : List Received) (log : List LogEntry)
    → any replaces ms ≡ false
    → log_before id ms log ≡ log
unfolding log_before replaces
log_before_kept id [] log h = refl
log_before_kept id ((now, full_state state none) ∷ ms) log h = log_before_kept id ms log h
log_before_kept id ((now, full_state state (some new)) ∷ ms) log h = cc
log_before_kept id ((now, switchover_progress p) ∷ ms) log h = log_before_kept id ms log h
log_before_kept id ((now, switchover_complete d) ∷ ms) log h = log_before_kept id ms log h
log_before_kept id ((now, unknown) ∷ ms) log h = log_before_kept id ms log h

-- An entry that comes before the other messages counts if none of them replaces the operations.
log_before_entry :
    (id : String) (ms : List Received) (log entry later : List LogEntry)
    → log_before id ms (log ++ entry) ++ later
      ≡ log_before id ms log ++ (if any replaces ms then later else entry ++ later)
log_before_entry id ms log entry later = elim (Bool-cases (any replaces ms)) [
  | inl replaced ↦ rw (replaced, log_before_replaced id ms (log ++ entry) log replaced) refl
  | inr kept ↦
      rw (kept, log_before_kept id ms (log ++ entry) kept, log_before_kept id ms log kept)
        (append_assoc log entry later)
]

-- What one message makes of the log under an id.
log_before_message :
    (id now : String) (m : Message) (ms : List Received) (c : Context)
    → log_before id ms (log_at id (on_message now m c).active_operations)
      ≡ log_before id ms (
          log_before id ((now, m) ∷ []) (log_at id c.active_operations)
          ++ message_entry id (now, m))
unfolding on_message log_before message_entry apply entry_of
log_before_message id now (full_state state none) ms c = ap (log_before id ms) (sym (append-nil _))
log_before_message id now (full_state state (some new)) ms c =
    ap (log_before id ms) (sym (append-nil _))
log_before_message id now (switchover_progress p) ms c =
    ap (log_before id ms) (log_at-apply id (progress now p) c.active_operations)
log_before_message id now (switchover_complete d) ms c =
    ap (log_before id ms) (log_at-apply id (complete d) c.active_operations)
log_before_message id now unknown ms c = ap (log_before id ms) (sym (append-nil _))

log_before-cons :
    (id now : String) (m : Message) (ms : List Received) (log : List LogEntry)
    → log_before id ms (log_before id ((now, m) ∷ []) log) ≡ log_before id ((now, m) ∷ ms) log
unfolding log_before
log_before-cons id now (full_state state none) ms log = refl
log_before-cons id now (full_state state (some new)) ms log = refl
log_before-cons id now (switchover_progress p) ms log = refl
log_before-cons id now (switchover_complete d) ms log = refl
log_before-cons id now unknown ms log = refl

-- After any messages, the log under an id is the one that stood there after the last message that
-- replaced the operations, or at the start if none did, and then one entry for each later progress
-- message with that id, in the order in which they came.
pub log_at-on_messages :
    (id : String) (ms : List Received) (c : Context)
    → log_at id (on_messages ms c).active_operations
      ≡ log_before id ms (log_at id c.active_operations) ++ entries_since id ms
unfolding on_messages entries_since
log_at-on_messages id [] c = unfold log_before in sym (append-nil _)
log_at-on_messages id ((now, m) ∷ ms) c =
    let start = log_before id ((now, m) ∷ []) (log_at id c.active_operations) in
    log_at-on_messages id ms (on_message now m c)
    ∙ (ap (λ log. log ++ entries_since id ms) (log_before_message id now m ms c)
        ∙ (log_before_entry id ms start (message_entry id (now, m)) (entries_since id ms)
            ∙ ap (λ log. log ++ entries_since id ((now, m) ∷ ms))
                (log_before-cons id now m ms (log_at id c.active_operations))))

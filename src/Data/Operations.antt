-- ===== src/Data/Operations.antt =====
-- The messages of the WebSocket in dashboard/src/context/DataContext.jsx: the whole state, and the
-- progress and the end of switchover operations.
pub mod Laws
use pg_swarm.Base.{
  ℕ, String, ◌≡◌, Bool, true, false, Option, none, some, List, [], ◌∷◌, ◌++◌, ◌==◌, ◌↔◌, eqb,
  eq_iff, arith,
}
use pg_swarm.Base.Assoc.{KeyTest, lookup, insert}
use pg_swarm.Js.{Value, undefined, bool, str, Object, or_else}
use pg_swarm.Data.{Source, Snapshot, collect, empty}

abbrev pub by_text : KeyTest String
by_text = record { same = ◌==◌; same_iff = eq_iff }

pub eqb_iff : (a b : ℕ) → (eqb a b ≡ true) ↔ (a ≡ b)
eqb_iff a b = ground arith

abbrev pub by_number : KeyTest ℕ
by_number = record { same = eqb; same_iff = eqb_iff }

-- An entry of `steps`.
pub record StepInfo : Type 0 where
  pub step : ℕ
  pub step_name : Value
  pub status : String
  pub target_pod : Value
  pub error_message : Value
  pub ponr : Value

-- An entry of `log`.
pub record LogEntry : Type 0 where
  pub step : ℕ
  pub step_name : Value
  pub status : String
  pub target_pod : Value
  pub detail : Value
  pub ponr : Value
  pub timestamp : Value

-- An operation; none where the object lacks the property.
pub record Operation : Type 0 where
  pub operation_id : Option Value
  pub cluster_name : Option Value
  pub primary_pod : Option Value
  pub target_pod : Option Value
  pub waiting_for_user : Option Value
  pub started : Option Value
  pub done : Option Value
  pub success : Option Value
  pub error : Option Value
  pub steps : Option (List (ℕ × StepInfo))
  pub log : Option (List LogEntry)

abbrev pub Operations : Type 0
Operations = List (String × Operation)

-- The data of a `switchover_progress` message; `timestamp` may be undefined.
pub record Progress : Type 0 where
  pub operation_id : String
  pub cluster_name : Value
  pub step : ℕ
  pub step_name : Value
  pub status : String
  pub target_pod : Value
  pub error_message : Value
  pub point_of_no_return : Value
  pub waiting_for_user : Value
  pub timestamp : Value

-- The data of a `switchover_complete` message.
pub record Complete : Type 0 where
  pub operation_id : String
  pub cluster_name : Value
  pub success : Value
  pub error : Value

-- `{ operation_id: id, cluster_name, steps: {}, log: [] }`
abbrev pub fresh : String → Option Value → Operation
fresh id name = record {
  operation_id = some (str id);
  cluster_name = name;
  primary_pod = none;
  target_pod = none;
  waiting_for_user = none;
  started = none;
  done = none;
  success = none;
  error = none;
  steps = some [];
  log = some [];
}

-- `m[id] || d`
abbrev pub operation_or : Option Operation → Operation → Operation
operation_or none d = d
operation_or (some op) d = op

-- `...(steps)`, where spreading undefined gives nothing, and `log || []`
abbrev pub list_or_empty {ℓ} : {A : Type ℓ} → Option (List A) → List A
list_or_empty none = []
list_or_empty (some xs) = xs

abbrev pub log_entry : String → Progress → LogEntry
log_entry now p = record {
  step = p.step;
  step_name = p.step_name;
  status = p.status;
  target_pod = p.target_pod;
  detail = p.error_message;
  ponr = p.point_of_no_return;
  timestamp = or_else p.timestamp (str now);
}

abbrev pub step_info : Progress → StepInfo
step_info p = record {
  step = p.step;
  step_name = p.step_name;
  status = p.status;
  target_pod = p.target_pod;
  error_message = p.error_message;
  ponr = p.point_of_no_return;
}

-- The operation that a progress message gives, from the one that was there.
unfoldable pub advance : String → Progress → Operation → Operation
advance now p existing = record existing {
  waiting_for_user = some (or_else p.waiting_for_user (bool false));
  steps = some (insert by_number p.step (step_info p) (list_or_empty existing.steps));
  log = some (list_or_empty existing.log ++ log_entry now p ∷ []);
}

unfoldable pub on_progress : String → Progress → Operations → Operations
unfolding advance
on_progress now p ops =
    let existing =
      operation_or (lookup by_text p.operation_id ops)
        (fresh p.operation_id (some p.cluster_name)) in
    insert by_text p.operation_id (advance now p existing) ops

unfoldable pub finish : Complete → Operation → Operation
finish d existing = record existing {
  cluster_name = some d.cluster_name;
  done = some (bool true);
  success = some d.success;
  error = some d.error;
}

unfoldable pub on_complete : Complete → Operations → Operations
unfolding finish
on_complete d ops =
    let existing = operation_or (lookup by_text d.operation_id ops) (fresh d.operation_id none) in
    insert by_text d.operation_id (finish d existing) ops

-- What `ws.onmessage` tells apart; `unknown` is any other text.
pub data Message : Type 0 where
  full_state : (Source → Option (List Object)) → Option Operations → Message
  switchover_progress : Progress → Message
  switchover_complete : Complete → Message
  unknown : Message

-- The states that the messages write.
pub record Context : Type 0 where
  pub snapshot : Snapshot
  pub last_refresh : Option String
  pub active_operations : Operations

-- `if (state.activeOperations) setActiveOperations(…)`
abbrev pub replace_operations : Option Operations → Operations → Operations
replace_operations none ops = ops
replace_operations (some new) ops = new

unfoldable pub on_message : String → Message → Context → Context
unfolding on_progress on_complete
on_message now (full_state state ops) c = record {
  snapshot = collect state;
  last_refresh = some now;
  active_operations = replace_operations ops c.active_operations;
}
on_message now (switchover_progress p) c = record c {
  active_operations = on_progress now p c.active_operations;
}
on_message now (switchover_complete d) c = record c {
  active_operations = on_complete d c.active_operations;
}
on_message now unknown c = c

-- The messages in the order in which they arrive, each with the time at which it does.
abbrev pub Received : Type 0
Received = String × Message

unfoldable pub on_messages : List Received → Context → Context
on_messages [] c = c
on_messages ((now, m) ∷ ms) c = on_messages ms (on_message now m c)

-- `refresh`: the results of the fourteen requests, none where one failed.
unfoldable pub on_refresh : String → (Source → Option (List Object)) → Context → Context
on_refresh now results c = record c { snapshot = collect results; last_refresh = some now }

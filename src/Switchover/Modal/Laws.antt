-- ===== src/Switchover/Modal/Laws.antt =====
-- What the modal shows is consistent.
use pg_swarm.Base.{◌≡◌, Bool, true, false, [], ◌∷◌, arith}
use pg_swarm.Js.{truthy}
use pg_swarm.Data.Operations.{Operation}
use pg_swarm.Switchover.{read}
use pg_swarm.Switchover.Modal.{Footer, cancel_start, abort_continue, running, close, footers}

-- Which footer belongs to the state of an operation.
abbrev pub footer_for : Bool → Bool → Bool → Footer
footer_for false done waiting = cancel_start
footer_for true true waiting = close
footer_for true false true = abort_continue
footer_for true false false = running

-- The modal shows exactly one group of buttons, whatever the operation: the start before it has
-- started, the close after its end, abort and continue while it waits for the user, and otherwise
-- the text that a step is running.
pub footers_one :
    (op : Operation)
    → footers op
      ≡ footer_for
          (truthy (read op.started))
          (truthy (read op.done))
          (truthy (read op.waiting_for_user))
        ∷ []
unfolding footers
footers_one op = ground arith

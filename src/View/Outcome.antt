-- ===== src/View/Outcome.antt =====
-- What an awaited call of the api comes to in a handler.
use pg_swarm.Base.{String}
use pg_swarm.Js.{Value}

-- The body of a response, or an error with its body and message.
pub data Outcome : Type 0 where
  resolves : Value → Outcome
  rejects : (body : Value) → (message : String) → Outcome

-- ===== src/Switchover/Simulation/Laws.antt =====
-- The simulated switchover ends, and how its end depends on when React runs the updates.
use Prim.Native.Nat.{zero}
use pg_swarm.Base.{
  ℕ, suc, ◌≤◌, ◌≡◌, refl, subst, String, Bool, true, false, some, List, arith, Bool-cases, inl, inr,
  eqb,
}
use pg_swarm.Base.Assoc.{insert}
use pg_swarm.Js.{Value, bool}
use pg_swarm.Data.Operations.{Operation, eqb_iff, list_or_empty}
use pg_swarm.Switchover.Modal.{completed_count}
use pg_swarm.Switchover.Simulation.{
  StepDef, Simulation, step_defs_of, start, tick, ticks, update, flip_phase, begun, requested,
}

-- The operation of a simulation has ended with success, and `n` steps are completed.
pub data EndsWith (n : ℕ) : Simulation → Type 0 where
  ends_with :
      {s : Simulation} (op : Operation)
      → s.op ≡ some op
      → s.running ≡ false
      → s.crashed ≡ false
      → op.done ≡ some (bool true)
      → op.success ≡ some (bool true)
      → completed_count (list_or_empty op.steps) ≡ n
      → EndsWith n s

abbrev pub never : ℕ → Bool
never n = false

abbrev pub always : ℕ → Bool
always n = true

-- The first `n` ticks of the simulation that starting a requested switchover runs.
unfoldable pub simulated :
    (ℕ → Bool) → (ℕ → String) → ℕ → Value → Value → Value → Value → Simulation
unfolding begun requested
simulated late clock n id cluster primary target =
    let op = begun id (requested cluster primary target) in
    ticks (step_defs_of op) late clock n (start op)

simulated_18 :
    (clock : ℕ → String) (id cluster primary target : Value)
    → EndsWith 9 (simulated never clock 18 id cluster primary target)
unfolding simulated begun requested ticks tick update flip_phase step_defs_of completed_count insert
simulated_18 clock id c p t = ends_with _ refl refl refl refl refl refl

simulated_17 :
    (clock : ℕ → String) (id cluster primary target : Value)
    → EndsWith 1 (simulated always clock 17 id cluster primary target)
unfolding simulated begun requested ticks tick update flip_phase step_defs_of completed_count insert
simulated_17 clock id c p t = ends_with _ refl refl refl refl refl refl

tick-stopped :
    (defs : List StepDef) (late : Bool) (ts : String) (s : Simulation)
    → s.running ≡ false
    → s ≡ tick defs late ts s
unfolding tick
tick-stopped defs late ts s r = rw r refl

tick-settled :
    (defs : List StepDef) (late : Bool) (ts : String) (n : ℕ) (s : Simulation)
    → EndsWith n s
    → EndsWith n (tick defs late ts s)
tick-settled defs late ts n s (ends_with op o r c d u k) =
    subst (EndsWith n) (tick-stopped defs late ts s r) (ends_with op o r c d u k)

ticks-settled :
    (defs : List StepDef) (late : ℕ → Bool) (clock : ℕ → String) (k m n : ℕ) (s : Simulation)
    → k ≤ m
    → EndsWith n (ticks defs late clock k s)
    → EndsWith n (ticks defs late clock m s)
unfolding ticks
ticks-settled defs late clock k zero n s le e =
    let now : k ≡ 0 = omega arith in subst (λ i. EndsWith n (ticks defs late clock i s)) now e
ticks-settled defs late clock k (suc m) n s le e = elim (Bool-cases (eqb k (suc m))) [
  | inl same ↦
      let now : k ≡ suc m = ground (arith, eqb_iff k (suc m)) in
      subst (λ i. EndsWith n (ticks defs late clock i s)) now e
  | inr other ↦
      let earlier : k ≤ m = ground (arith, eqb_iff k (suc m)) in
      tick-settled defs (late m) (clock m) n (ticks defs late clock m s)
        (ticks-settled defs late clock k m n s earlier e)
]

-- When React runs every update at once, the simulation of a requested switchover has ended with
-- success, with all nine steps completed and its timer stopped, after 18 ticks and ever after.
pub eager_simulation_completes :
    (clock : ℕ → String) (m : ℕ) (id cluster primary target : Value)
    → 18 ≤ m
    → EndsWith 9 (simulated never clock m id cluster primary target)
unfolding simulated
eager_simulation_completes clock m id c p t le =
    ticks-settled _ never clock 18 m 9 _ le (simulated_18 clock id c p t)

-- When React runs every update late, the simulation of a requested switchover has ended with
-- success after 17 ticks and ever after, although only one of the nine steps is completed.
pub late_simulation_skips_steps :
    (clock : ℕ → String) (m : ℕ) (id cluster primary target : Value)
    → 17 ≤ m
    → EndsWith 1 (simulated always clock m id cluster primary target)
unfolding simulated
late_simulation_skips_steps clock m id c p t le =
    ticks-settled _ always clock 17 m 1 _ le (simulated_17 clock id c p t)

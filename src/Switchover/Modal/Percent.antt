-- ===== src/Switchover/Modal/Percent.antt =====
-- The progress bar stays within its bounds.
use Prim.Native.Nat.{zero}
use pg_swarm.Base.{
  ℕ, suc, ◌+◌, ◌≤◌, ◌≡◌, refl, sym, Option, none, some, List, [], ◌∷◌, arith, ap, leb, ◌==◌, eqb,
  if◌then◌else◌, length, length-filter, Bool-cases, inl, inr, ◌&&◌,
}
use pg_swarm.Base.Assoc.{lookup, values}
use pg_swarm.Data.Operations.{StepInfo, Operation, by_number, eqb_iff, list_or_empty}
use pg_swarm.Switchover.Modal.{total_steps, completed_count, rounded_percent, percent}
use pg_swarm.Switchover.Merge.Laws.{HasDistinctSteps}

-- Every step has a number from 1 to 9.
abbrev pub HasKnownSteps : List (ℕ × StepInfo) → Type 0
HasKnownSteps [] = Unit
HasKnownSteps ((k, s) ∷ m) = (1 ≤ k) × (k ≤ total_steps) × HasKnownSteps m

abbrev present : Option StepInfo → ℕ
present none = 0
present (some s) = 1

-- How many of the numbers up to `n` are keys.
count_keys : ℕ → List (ℕ × StepInfo) → ℕ
count_keys zero m = 0
count_keys (suc n) m = present (lookup by_number (suc n) m) + count_keys n m

count_keys-le : (n : ℕ) (m : List (ℕ × StepInfo)) → count_keys n m ≤ n
unfolding count_keys
count_keys-le zero m = omega arith
count_keys-le (suc n) m = ground (arith, count_keys-le n m)

count_keys-nil : (n : ℕ) → count_keys n [] ≡ 0
unfolding count_keys lookup
count_keys-nil zero = refl
count_keys-nil (suc n) = omega (arith, count_keys-nil n)

-- A new key counts once, if it is in the range.
count_keys-cons :
    (n k : ℕ) (s : StepInfo) (m : List (ℕ × StepInfo))
    → lookup by_number k m ≡ none
    → count_keys n ((k, s) ∷ m) ≡ (if leb 1 k && leb k n then 1 else 0) + count_keys n m
unfolding count_keys lookup
count_keys-cons zero k s m h = ground arith
count_keys-cons (suc n) k s m h = elim (Bool-cases (eqb k (suc n))) [
  | inl same ↦ rw same (ground (arith, count_keys-cons n k s m h, eqb_iff k (suc n), ap present h))
  | inr other ↦ rw other (ground (arith, count_keys-cons n k s m h, eqb_iff k (suc n)))
]

length-count_keys :
    (m : List (ℕ × StepInfo))
    → HasDistinctSteps m
    → HasKnownSteps m
    → length (values m) ≡ count_keys total_steps m
length-count_keys [] d k = sym (count_keys-nil total_steps)
length-count_keys ((j, s) ∷ m) d k =
    ground (arith, length-count_keys m d.1 k.2, count_keys-cons total_steps j s m d.0)

completed_count-le :
    (m : List (ℕ × StepInfo))
    → HasDistinctSteps m
    → HasKnownSteps m
    → completed_count m ≤ total_steps
unfolding completed_count
completed_count-le m d k = omega (
  arith,
  length-filter (λ (s : StepInfo). s.status == "completed") (values m),
  length-count_keys m d k,
  count_keys-le total_steps m,
)

rounded_percent-le : (n : ℕ) → n ≤ total_steps → rounded_percent n ≤ 100
rounded_percent-le n h = omega arith

-- When the steps of an operation have distinct numbers from 1 to 9, the percentage the modal shows
-- is at most 100.
pub percent_bounds :
    (op : Operation)
    → HasDistinctSteps (list_or_empty op.steps)
    → HasKnownSteps (list_or_empty op.steps)
    → percent op ≤ 100
unfolding percent
percent_bounds op d k = ground (
  arith,
  rounded_percent-le (completed_count (list_or_empty op.steps))
      (completed_count-le (list_or_empty op.steps) d k),
)

-- ===== src/Switchover/Merge/Laws.antt =====
-- What the merge keeps of its two sources.
use pg_swarm.Base.{
  ℕ, ◌≡◌, refl, Bool, true, false, Option, none, some, List, [], ◌∷◌, arith, Bool-cases, inl, inr,
  if◌then◌else◌, ◌||◌,
}
use pg_swarm.Base.Assoc.{lookup, insert, lookup-insert}
use pg_swarm.Js.{Value, truthy, or_else}
use pg_swarm.Data.Operations.{StepInfo, LogEntry, Operation, by_number, eqb_iff, list_or_empty}
use pg_swarm.Switchover.{read, or_blank}
use pg_swarm.Switchover.Merge.{merge, merge_log, merge_steps}

-- The first of two that is there.
abbrev pub first_some {ℓ} : {A : Type ℓ} → Option A → Option A → Option A
first_some none b = b
first_some (some a) b = some a

-- Each key stands once.
abbrev pub HasDistinctSteps : List (ℕ × StepInfo) → Type 0
HasDistinctSteps [] = Unit
HasDistinctSteps ((k, s) ∷ m) = (lookup by_number k m ≡ none) × HasDistinctSteps m

lookup-merge_steps :
    (n : ℕ) (merged ws : List (ℕ × StepInfo))
    → HasDistinctSteps ws
    → lookup by_number n (merge_steps merged ws)
      ≡ first_some (lookup by_number n ws) (lookup by_number n merged)
unfolding merge_steps lookup
lookup-merge_steps n merged [] h = refl
lookup-merge_steps n merged ((k, s) ∷ ws) h = ground (
  arith,
  lookup-merge_steps n (insert by_number k s merged) ws h.1,
  lookup-insert by_number k n s merged,
  eqb_iff k n,
  h.0,
)

abbrev pub is_empty {ℓ} : {A : Type ℓ} → List A → Bool
is_empty [] = true
is_empty (x ∷ xs) = false

merge_log_chosen :
    (local ws : List LogEntry) → merge_log local ws ≡ (if is_empty ws then local else ws)
merge_log_chosen local [] = refl
merge_log_chosen local (e ∷ ws) = refl

either_started : (a b : Value) → truthy (or_else a b) ≡ (truthy a || truthy b)
either_started a b = elim (Bool-cases (truthy a)) [
  | inl yes_a ↦ rw yes_a yes_a
  | inr no_a ↦ rw no_a refl
]

-- If no step stands twice in the server's operation, then each step of the merged one is as the
-- server pushed it, or else as it is known locally; its log is the server's whole log, or the whole
-- local one if the server's has no entry; and it has started if either source says so.
pub merge_parts :
    (local ws : Option Operation)
    → HasDistinctSteps (list_or_empty (or_blank ws).steps)
    → ((n : ℕ)
        → lookup by_number n (list_or_empty (merge local ws).steps)
          ≡ first_some
              (lookup by_number n (list_or_empty (or_blank ws).steps))
              (lookup by_number n (list_or_empty (or_blank local).steps)))
      × (list_or_empty (merge local ws).log ≡ (
          if is_empty (list_or_empty (or_blank ws).log)
          then list_or_empty (or_blank local).log
          else list_or_empty (or_blank ws).log))
      × (truthy (read (merge local ws).started)
          ≡ (truthy (read (or_blank local).started) || truthy (read (or_blank ws).started)))
unfolding merge
merge_parts local ws h = (
  (λ n.
      lookup-merge_steps n (list_or_empty (or_blank local).steps)
        (list_or_empty (or_blank ws).steps) h),
  merge_log_chosen (list_or_empty (or_blank local).log) (list_or_empty (or_blank ws).log),
  either_started (read (or_blank local).started) (read (or_blank ws).started),
)

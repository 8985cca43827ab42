-- ===== src/Switchover/Modal/Times.antt =====
-- `buildLogIndex` against an independent description: the last entry of each kind for each step.
use pg_swarm.Base.{
  ℕ, ◌≡◌, refl, ap, ◌∙◌, Bool, List, [], ◌∷◌, ◌==◌, ◌&&◌, arith, if◌then◌else◌, eqb, Bool-cases,
  inl, inr,
}
use pg_swarm.Base.Assoc.{lookup, insert, lookup-insert}
use pg_swarm.Js.{Value, undefined, truthy}
use pg_swarm.Data.Operations.{LogEntry, by_number, eqb_iff}
use pg_swarm.Switchover.Modal.{
  StepTimes, times_or, is_terminal, note_entry, index_from, build_log_index,
}

-- The last value that the entries give for which the test holds; `before` if there is none.
abbrev pub last_value : (LogEntry → Bool) → (LogEntry → Value) → Value → List LogEntry → Value
last_value test value before [] = before
last_value test value before (e ∷ log) =
    last_value test value (if test e then value e else before) log

abbrev pub starts : ℕ → LogEntry → Bool
starts n e = eqb e.step n && (e.status == "starting")

abbrev pub ends : ℕ → LogEntry → Bool
ends n e = eqb e.step n && is_terminal e.status

abbrev pub explains : ℕ → LogEntry → Bool
explains n e = eqb e.step n && (is_terminal e.status && truthy e.detail)

-- What the index should say about step `n`, from what it said before.
abbrev times_after : ℕ → StepTimes → List LogEntry → StepTimes
times_after n t log = record {
  started_at = last_value (starts n) (λ e. e.timestamp) t.started_at log;
  ended_at = last_value (ends n) (λ e. e.timestamp) t.ended_at log;
  detail = last_value (explains n) (λ e. e.detail) t.detail log;
}

note_started :
    (e : LogEntry) (t : StepTimes)
    → (note_entry e t).started_at ≡ (if e.status == "starting" then e.timestamp else t.started_at)
unfolding note_entry
note_started e t = ground arith

note_ended :
    (e : LogEntry) (t : StepTimes)
    → (note_entry e t).ended_at ≡ (if is_terminal e.status then e.timestamp else t.ended_at)
unfolding note_entry
note_ended e t = ground arith

note_detail :
    (e : LogEntry) (t : StepTimes)
    → (note_entry e t).detail
      ≡ (if is_terminal e.status && truthy e.detail then e.detail else t.detail)
unfolding note_entry
note_detail e t = ground arith

inserted :
    (n : ℕ) (e : LogEntry) (map : List (ℕ × StepTimes))
    → times_or (
        lookup by_number n
          (insert by_number e.step (note_entry e (times_or (lookup by_number e.step map))) map))
      ≡ (if eqb e.step n
          then note_entry e (times_or (lookup by_number n map))
          else times_or (lookup by_number n map))
inserted n e map =
    ap times_or (lookup-insert by_number e.step n _ map) ∙ elim (Bool-cases (eqb e.step n)) [
      | inl same ↦ let it : e.step ≡ n = (eqb_iff e.step n).0 same in rw (same, it) refl
      | inr other ↦ rw other refl
    ]

note_entry-times :
    (n : ℕ) (e : LogEntry) (t : StepTimes) (log : List LogEntry)
    → times_after n (if eqb e.step n then note_entry e t else t) log ≡ times_after n t (e ∷ log)
note_entry-times n e t log = elim (Bool-cases (eqb e.step n)) [
  | inl same ↦ rw (same, note_started e t, note_ended e t, note_detail e t) refl
  | inr other ↦ rw other refl
]

-- What the index says about a step after a log, from what it said before.
index_from-times :
    (n : ℕ) (map : List (ℕ × StepTimes)) (log : List LogEntry)
    → times_or (lookup by_number n (index_from map log))
      ≡ times_after n (times_or (lookup by_number n map)) log
unfolding index_from
index_from-times n map [] = refl
index_from-times n map (e ∷ log) =
    let noted = note_entry e (times_or (lookup by_number e.step map)) in
    index_from-times n (insert by_number e.step noted map) log
    ∙ ap (λ t. times_after n t log) (inserted n e map)
    ∙ note_entry-times n e (times_or (lookup by_number n map)) log

-- The index shows for every step the time of the last entry that starts it, the time of the last
-- entry that completes it, fails it or rolls it back, and the last detail of such an entry.
pub build_log_index-times :
    (n : ℕ) (log : List LogEntry)
    → times_or (lookup by_number n (build_log_index log)) ≡ record {
      started_at = last_value (starts n) (λ e. e.timestamp) undefined log;
      ended_at = last_value (ends n) (λ e. e.timestamp) undefined log;
      detail = last_value (explains n) (λ e. e.detail) undefined log;
    }
unfolding build_log_index lookup
build_log_index-times n log = index_from-times n [] log

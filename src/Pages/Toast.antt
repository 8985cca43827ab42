-- ===== src/Pages/Toast.antt =====
-- dashboard/src/context/ToastContext.jsx: the toasts and their timers.
pub mod Laws
use pg_swarm.Base.{ℕ, suc, String, Bool, true, false, not, List, [], ◌∷◌, ◌++◌, eqb, filter, any}

pub record Toast : Type 0 where
  pub id : ℕ
  pub message : String
  pub is_error : Bool

-- `nextId`, `toasts`, and the ids whose `setTimeout` is pending.
pub record Toasts : Type 0 where
  pub next_id : ℕ
  pub toasts : List Toast
  pub timers : List ℕ

abbrev pub no_toasts : Toasts
no_toasts = record { next_id = 0; toasts = []; timers = [] }

-- `toast(message, isError)`
unfoldable pub toast : String → Bool → Toasts → Toasts
toast message is_error s =
    let new : Toast = record { id = suc s.next_id; message = message; is_error = is_error } in
    record {
      next_id = suc s.next_id;
      toasts = s.toasts ++ new ∷ [];
      timers = s.timers ++ suc s.next_id ∷ [];
    }

-- The timer of an id fires.
unfoldable pub expire : ℕ → Toasts → Toasts
expire id s = record s {
  toasts = filter (λ (t : Toast). not (eqb t.id id)) s.toasts;
  timers = filter (λ i. not (eqb i id)) s.timers;
}

-- ===== src/Tests/Around.antt =====
-- The theorems on the pages around the data and on the times of the client, at concrete inputs.
use pg_swarm.Base.{
  ℕ, ◌≡◌, ◌≤◌, ◌↔◌, ◌||◌, not, refl, true, false, Option, some, [], ◌∷◌, ◌++◌, length, arith,
}
use pg_swarm.Js.{Value, str, Object, get}
use pg_swarm.Js.Text.{◌⧺◌}
use pg_swarm.Pages.Csv.{escape_text, has_char}
use pg_swarm.Pages.Csv.Laws.{is_quoted, read_field, read_field-escape_text}
use pg_swarm.Api.Status.{derive_sat_state}
use pg_swarm.Api.Status.Laws.{derive_sat_state_later}
use pg_swarm.Pages.Logs.{max_local, push_all}
use pg_swarm.Pages.Logs.Laws.{last_of, push_all_keeps_last}
use pg_swarm.Pages.Theme.{Browser, Themed, opened_page}
use pg_swarm.Pages.Theme.Laws.{choose, cycle, act_all, IsKept, opened_page-IsKept_always}
use pg_swarm.Pages.Toast.{Toasts, no_toasts, toast}
use pg_swarm.Pages.Toast.Laws.{
  Reaches, begins, shows, IsTimed, Reaches-IsTimed, expire_all, toasts_vanish,
}

abbrev beating : Object
beating = ("state", str "connected") ∷ ("last_heartbeat", str "t") ∷ []

abbrev at_zero : Value → Option ℕ
at_zero v = some 0

derive_sat_state_later_example : derive_sat_state at_zero 90000 beating ≡ str "offline"
unfolding derive_sat_state get
derive_sat_state_later_example =
    derive_sat_state_later at_zero 61000 90000 beating (omega arith) refl

push_all_keeps_last_example :
    (push_all [] (beating ∷ beating ∷ []) ≡ last_of max_local ([] ++ (beating ∷ beating ∷ [])))
    × (length (push_all [] (beating ∷ beating ∷ [])) ≤ max_local)
push_all_keeps_last_example = push_all_keeps_last [] (beating ∷ beating ∷ []) (omega arith)

abbrev browser : Browser
browser = record { stored = some "blue"; readable = true; writable = true; prefers_dark = false }

opened_page-IsKept_always_example :
    IsKept (act_all (cycle ∷ choose "red" ∷ []) (opened_page browser))
opened_page-IsKept_always_example = opened_page-IsKept_always browser (cycle ∷ choose "red" ∷ [])

abbrev dark_page : Themed
dark_page = record { theme = "dark"; browser = browser }

abbrev two_toasts : Toasts
two_toasts = toast "b" true (toast "a" false no_toasts)

two_toasts_reached : Reaches two_toasts
two_toasts_reached = shows "b" true (shows "a" false begins)

Reaches-IsTimed_example : IsTimed two_toasts
Reaches-IsTimed_example = Reaches-IsTimed two_toasts_reached

toasts_vanish_example : (expire_all two_toasts.timers two_toasts).toasts ≡ []
toasts_vanish_example = toasts_vanish two_toasts_reached

read_field-escape_text_example :
    (read_field (escape_text "a \"b\", c" ⧺ ("," ⧺ "d")) ≡ some ("a \"b\", c", "," ⧺ "d"))
    ↔ ((is_quoted "a \"b\", c" || not (has_char b'\r' "a \"b\", c")) ≡ true)
read_field-escape_text_example = read_field-escape_text "a \"b\", c" "d"

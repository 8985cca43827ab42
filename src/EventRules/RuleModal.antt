-- ===== src/EventRules/RuleModal.antt =====
-- `RuleModal` of dashboard/src/components/EventRulesTab.jsx. `RegExp` is a parameter, which fails with
-- a message or gives the test of the pattern.
use Prim.Native.Char.{Char, code}
use pg_swarm.Base.{
  ℕ, String, Bool, false, not, Option, none, some, [], ◌∷◌, ◌&&◌, ◌||◌, leb, eqb, if◌then◌else◌,
}
use pg_swarm.Js.{Value, num, str, Object, get, set, truthy, or_else}
use pg_swarm.Js.Text.{◌⧺◌, to_text}
use pg_swarm.Js.Words.{trim, is_empty, int_or}
use pg_swarm.View.{View, nothing, text, ◌&◌, el, press, input, select, when, each, plain_button}
use pg_swarm.EventRules.{severities}
use pg_swarm.EventRules.Editors.{Act, update, submits, closes, not_false, row, same_option}

pub data Compiled : Type 0 where
  fails : (message : String) → Compiled
  tests : (String → Bool) → Compiled

-- the initial form of `RuleModal`
unfoldable pub rule_form : Object → Object
rule_form rule =
    ("name", or_else (get rule "name") (str ""))
    ∷ ("pattern", or_else (get rule "pattern") (str ""))
    ∷ ("severity", or_else (get rule "severity") (str "warning"))
    ∷ ("category", or_else (get rule "category") (str "Custom"))
    ∷ ("enabled", not_false (get rule "enabled"))
    ∷ ("cooldown_seconds", or_else (get rule "cooldown_seconds") (num 60))
    ∷ ("threshold", or_else (get rule "threshold") (num 1))
    ∷ ("threshold_window_seconds", or_else (get rule "threshold_window_seconds") (num 0))
    ∷ ("id", get rule "id")
    ∷ []

-- The state of `RuleModal`; `test_result` is none for null.
pub record Modal : Type 0 where
  pub form : Object
  pub test_input : String
  pub test_result : Option Bool
  pub pattern_error : String

unfoldable pub opened_modal : Object → Modal
unfolding rule_form
opened_modal rule = record {
  form = rule_form rule;
  test_input = "";
  test_result = none;
  pattern_error = "";
}

-- `set` of `RuleModal`
unfoldable pub set_rule : String → Value → Modal → Modal
set_rule k v m = record m { form = set m.form k v }

-- `testPattern`
unfoldable pub test_pattern : (String → Compiled) → Modal → Modal
test_pattern reg_exp m =
    let pattern = to_text (get m.form "pattern") in
    if is_empty pattern || is_empty m.test_input
    then record m { test_result = none }
    else elim (reg_exp pattern) [
      | fails message ↦ record m { pattern_error = message; test_result = none }
      | tests matches ↦ record m { pattern_error = ""; test_result = some (matches m.test_input) }
    ]

-- `handlePatternChange`
unfoldable pub handle_pattern_change : String → Modal → Modal
handle_pattern_change v m = record m {
  form = set m.form "pattern" (str v);
  pattern_error = "";
  test_result = none;
}

unfoldable pub set_test_input : String → Modal → Modal
set_test_input t m = record m { test_input = t; test_result = none }

-- `submit` of `RuleModal`: the state, and the object that is saved
unfoldable pub submit_rule : (String → Compiled) → Modal → Modal × Option Object
unfolding trim
submit_rule reg_exp m =
    let pattern = to_text (get m.form "pattern") in
    if is_empty (trim (to_text (get m.form "name"))) || is_empty (trim pattern)
    then (m, none)
    else elim (reg_exp pattern) [
      | fails message ↦ (record m { pattern_error = message }, none)
      | tests matches ↦ (m, some m.form)
    ]

abbrev is_name_char : Char → Bool
is_name_char c =
    (leb b'a' (code c) && leb (code c) b'z')
    || (leb b'0' (code c) && leb (code c) b'9')
    || eqb (code c) b'-'

-- `s.replace(/[^a-z0-9-]/g, '')`
unfoldable pub name_chars : String → String
name_chars String.[] = ""
name_chars (String.◌∷◌ c s) =
    let rest = name_chars s in if is_name_char c then String.◌∷◌ c rest else rest

abbrev hint : {S : Type 0} → String → View (Act S)
hint s = el "span.muted" (text s)

abbrev number_input : String → ℕ → Modal → View (Act Modal)
number_input k d m =
    input "input number" (get m.form k) false (λ t. update (set_rule k (num (int_or t d))))

-- the test of the pattern
unfoldable pub pattern_test : (String → Compiled) → Modal → View (Act Modal)
unfolding test_pattern set_test_input
pattern_test reg_exp m = el "div" (
    el "label" (text "Test Pattern")
    & el "div" (
        input "input mono" (str m.test_input) false (λ t. update (set_test_input t))
        & plain_button "btn btn-sm" (update (test_pattern reg_exp)) " Test")
    & elim m.test_result [
      | none ↦ nothing
      | some b ↦ el "div" (
          if b
          then el "span.badge.badge-green" (text "Match")
          else el "span.badge.badge-red" (text "No match"))
    ])

-- the body of `RuleModal`
unfoldable pub rule_body : (String → Compiled) → Modal → View (Act Modal)
unfolding pattern_test set_rule handle_pattern_change name_chars
rule_body reg_exp m =
    el "div.form-grid" (
      row "Name" (
        input "input" (get m.form "name") false
          (λ t. update (set_rule "name" (str (name_chars t)))))
      & row "Severity" (
          select (get m.form "severity") (λ t. update (set_rule "severity" (str t)))
            (each same_option severities)))
    & el "div.form-row" (
        el "label" (text "Pattern (Regex)")
        & input (if is_empty m.pattern_error then "input mono" else "input mono input-error")
            (get m.form "pattern") false (λ t. update (handle_pattern_change t))
        & when (not (is_empty m.pattern_error))
            (el "span.form-error" (text ("Invalid regex: " ⧺ m.pattern_error))))
    & pattern_test reg_exp m
    & el "div.form-grid" (
        row "Category"
          (input "input" (get m.form "category") false (λ t. update (set_rule "category" (str t))))
        & row "Cooldown (seconds)" (number_input "cooldown_seconds" 0 m))
    & el "div.form-grid" (
        row "Threshold" (number_input "threshold" 1 m & hint "Matches required before firing")
        & row "Window (seconds)" (
            number_input "threshold_window_seconds" 0 m
            & hint "Time window for counting (0 = single match)"))

-- `RuleModal`; a click in its window goes no further than the window.
unfoldable pub rule_modal : (String → Compiled) → Modal → View (Act Modal)
unfolding rule_body submit_rule
rule_modal reg_exp m =
    let is_old = truthy (get m.form "id") in
    press closes (
      el "div.confirm-overlay" (
        el "div.confirm-modal" (
          el "div.confirm-header" (
            el "h3" (text (if is_old then "Edit Event" else "New Event"))
            & plain_button "modal-close" closes "")
          & el "div.confirm-body" (rule_body reg_exp m)
          & el "div.confirm-footer" (
              plain_button "btn" closes "Cancel"
              & plain_button "btn btn-approve" (submits (submit_rule reg_exp))
                  (if is_old then "Update" else "Create")))))

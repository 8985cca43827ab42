-- ===== src/EventRules/Manager.antt =====
-- `RuleSetHandlerManager` of dashboard/src/components/EventRulesTab.jsx: the handlers of a rule set.
pub mod Laws
use pg_swarm.Base.{
  String, Bool, true, false, not, Option, none, some, List, [], ◌∷◌, ◌++◌, filter, any, map,
  if◌then◌else◌,
}
use pg_swarm.Js.{Value, Object, get, strict_eq}
use pg_swarm.Js.Text.{◌⧺◌, to_text}
use pg_swarm.Js.Props.{prop, list_of}
use pg_swarm.View.{View, nothing, text, ◌&◌, el, checkbox, each, child, plain_button}
use pg_swarm.View.Outcome.{Outcome, resolves, rejects}
use pg_swarm.Api.Calls.{Call, rule_set_call}
use pg_swarm.Api.RuleSets.{add_handler_to_rule_set, remove_handler_from_rule_set}

-- `included`, with no value twice, and `loading`
pub record Manager : Type 0 where
  pub included : List Value
  pub loading : Bool

-- `included.has(id)`
unfoldable pub has_id : Value → List Value → Bool
has_id id ids = any (λ v. strict_eq v id) ids

-- `next.add(id)`
unfoldable pub add_id : Value → List Value → List Value
unfolding has_id
add_id id ids = if has_id id ids then ids else ids ++ id ∷ []

-- `next.delete(id)`
unfoldable pub delete_id : Value → List Value → List Value
delete_id id ids = filter (λ v. not (strict_eq v id)) ids

unfoldable pub add_all : List Value → List Value → List Value
unfolding add_id prop
add_all ids [] = ids
add_all ids (h ∷ hs) = add_all (add_id (prop h "id") ids) hs

-- the first load of the handlers of the set, after its call
unfoldable pub loaded : Outcome → Manager
unfolding add_all
loaded (resolves handlers) = record { included = add_all [] (list_of handlers); loading = false }
loaded (rejects body message) = record { included = []; loading = false }

-- the call of `toggle`
unfoldable pub toggle_call : String → Value → Bool → Call
toggle_call set_id handler_id currently = rule_set_call (
    if currently
    then remove_handler_from_rule_set set_id (to_text handler_id)
    else add_handler_to_rule_set set_id handler_id)

-- `toggle`, after its call: the state, and the toast of an error
unfoldable pub after_toggle : Value → Bool → Outcome → Manager → Manager × Option String
after_toggle handler_id currently (resolves result) m =
    let next =
      if currently then delete_id handler_id m.included else add_id handler_id m.included in
    (record m { included = next }, none)
after_toggle handler_id currently (rejects body message) m = (m, some ("Failed: " ⧺ message))

-- What a control does: it calls `toggle` or `onClose`.
pub data Act : Type 0 where
  toggles : (handler_id : Value) → (currently : Bool) → Act
  closes : Act

-- the row of a handler
unfoldable pub handler_line : Manager → Object → View Act
unfolding has_id
handler_line m h =
    let on = has_id (get h "id") m.included in
    el "tr" (
      el "td" (checkbox on (λ _. toggles (get h "id") on))
      & el "td" (el "span.mono.sm" (child (get h "event_rule_name")))
      & el "td" nothing
      & el "td" (el "span.mono.sm" (child (get h "event_action_name"))))

-- `RuleSetHandlerManager`
unfoldable pub manager_view : Object → List Object → Manager → View Act
unfolding handler_line
manager_view rule_set all_handlers m =
    if m.loading
    then el "div" (text "Loading...")
    else el "div" (
        el "div" (
          el "h4" (text "Handlers in " & el "span.mono" (child (get rule_set "name")))
          & plain_button "btn btn-sm" closes " Done")
        & el "table" (
            el "thead" (el "tr" (each (λ s. el "th" (text s)) ("" ∷ "Event" ∷ "" ∷ "Action" ∷ [])))
            & el "tbody" (each (handler_line m) all_handlers)))

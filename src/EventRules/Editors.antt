-- ===== src/EventRules/Editors.antt =====
-- The editors of dashboard/src/components/EventRulesTab.jsx: `ActionEditor`,
-- `HandlerEditor` and `RuleSetEditor`. A form is an object that `set` writes. `JSON.parse`, none where it throws, and
-- `JSON.stringify` with its indent are parameters.
use pg_swarm.Base.{String, Bool, true, false, Option, none, some, List, [], ◌∷◌, if◌then◌else◌}
use pg_swarm.Js.{Value, null, bool, str, obj, arr, Object, get, set, truthy, or_else}
use pg_swarm.Js.Text.{◌⧺◌, to_text}
use pg_swarm.View.{View, text, ◌&◌, el, input, checkbox, select, option, each, child, plain_button}
use pg_swarm.EventRules.{ActionType, action_types}

-- `v !== false`
abbrev pub not_false : Value → Value
not_false (bool false) = bool false
not_false _ = bool true

-- What a control of an editor does: it changes the state, saves an object, or closes.
pub data Act (S : Type 0) : Type 0 where
  update : (S → S) → Act S
  submits : (S → S × Option Object) → Act S
  closes : Act S

abbrev pub row : {S : Type 0} → String → View (Act S) → View (Act S)
row label v = el "div.form-row" (el "label" (text label) & v)

abbrev pub same_option : {S : Type 0} → String → View (Act S)
same_option s = option (str s) (text s)

abbrev is_object_kind : Value → Bool
is_object_kind null = true
is_object_kind (obj fs) = true
is_object_kind (arr xs) = true
is_object_kind _ = false

-- the initial form of `ActionEditor`; `typeof null` is 'object' too
unfoldable pub action_form : (Value → String) → Object → Object
action_form stringify action =
    let config = get action "config" in
    ("name", or_else (get action "name") (str ""))
    ∷ ("type", or_else (get action "type") (str "restart"))
    ∷ ("description", or_else (get action "description") (str ""))
    ∷ (
      "config",
      (if is_object_kind config then str (stringify config) else or_else config (str "{}")),
    )
    ∷ ("id", get action "id")
    ∷ []

-- `submit` of `ActionEditor`: what is saved; without it the dialog says that the JSON is invalid
unfoldable pub submit_action : (String → Option Value) → Object → Option Object
submit_action parse form = elim (parse (to_text (get form "config"))) [
  | none ↦ none
  | some config ↦ some (set form "config" config)
]

abbrev field : String → String → String → Object → View (Act Object)
field label class k form =
    row label (input class (get form k) false (λ t. update (λ f. set f k (str t))))

abbrev foot : (Object → Option Object) → View (Act Object)
foot saved = el "div" (
    plain_button "btn btn-sm" closes "Cancel"
    & plain_button "btn btn-sm btn-approve" (submits (λ f. (f, saved f))) "Save")

abbrev title : String → Object → View (Act Object)
title kind form = el "h4" (text ((if truthy (get form "id") then "Edit " else "New ") ⧺ kind))

-- `ActionEditor`
unfoldable pub action_editor : (String → Option Value) → Object → View (Act Object)
unfolding submit_action
action_editor parse form = el "div" (
    title "Action" form
    & field "Name" "input" "name" form
    & row "Type" (
        select (get form "type") (λ t. update (λ f. set f "type" (str t)))
          (each (λ (a : ActionType). option (str a.value) (text a.label)) action_types))
    & field "Description" "input" "description" form
    & field "Config (JSON)" "textarea input mono" "config" form
    & foot (submit_action parse))

-- the initial form of `HandlerEditor`
unfoldable pub handler_form : Object → Object
handler_form handler =
    ("event_rule_id", or_else (get handler "event_rule_id") (str ""))
    ∷ ("event_action_id", or_else (get handler "event_action_id") (str ""))
    ∷ ("enabled", not_false (get handler "enabled"))
    ∷ ("id", get handler "id")
    ∷ []

abbrev choice :
    String → String → List Object → (Object → View (Act Object)) → Object → View (Act Object)
choice label k offered name_of form = row label (
    select (get form k) (λ t. update (λ f. set f k (str t)))
      (option (str "") (text "— select —")
        & each (λ (o : Object). option (get o "id") (name_of o)) offered))

-- `HandlerEditor`
unfoldable pub handler_editor : List Object → List Object → Object → View (Act Object)
handler_editor rules actions form = el "div" (
    title "Handler" form
    & choice "Event Rule" "event_rule_id" rules (λ r. child (get r "name")) form
    & choice "Action" "event_action_id" actions
        (λ a. child (get a "name") & text " (" & child (get a "type") & text ")") form
    & row "Enabled"
        (checkbox (truthy (get form "enabled")) (λ c. update (λ f. set f "enabled" (bool c))))
    & foot (λ f. some f))

-- the initial form of `RuleSetEditor`
unfoldable pub rule_set_form : Object → Object
rule_set_form rs =
    ("name", or_else (get rs "name") (str ""))
    ∷ ("description", or_else (get rs "description") (str ""))
    ∷ ("id", get rs "id")
    ∷ []

-- `RuleSetEditor`
unfoldable pub rule_set_editor : Object → View (Act Object)
rule_set_editor form = el "div" (
    title "Rule Set" form
    & field "Name" "input" "name" form
    & field "Description" "input" "description" form
    & foot (λ f. some f))

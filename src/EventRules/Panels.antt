-- ===== src/EventRules/Panels.antt =====
-- The panels of dashboard/src/components/EventRulesTab.jsx while no editor is open, and the bar of
-- tabs.
use pg_swarm.Base.{
  String, not, Option, none, some, List, [], ◌∷◌, ◌==◌, if◌then◌else◌, filter, length, eqb,
}
use pg_swarm.Js.{Value, bool, str, Object, get, set, truthy, or_else}
use pg_swarm.Js.Text.{◌⧺◌, to_text, show}
use pg_swarm.View.{View, nothing, text, ◌&◌, el, press, when, each, child, plain_button}
use pg_swarm.EventRules.{group_by_category, type_badge, sev_badge, fmt_cooldown}

-- What a control of a panel does: it opens the editor for a new object or for one of the table, calls
-- `del`, opens or closes a category, opens the handlers of a rule set, or chooses a tab.
pub data Act : Type 0 where
  edits_new : Act
  edits : Object → Act
  deletes : (id : Value) → Act
  folds : (category : String) → Act
  manages : Object → Act
  chooses : (key : String) → Act

-- `tabs` as buttons
unfoldable pub tab_bar : String → List (String × (String × String)) → View Act
tab_bar active tabs = el "div" (
    each
      (λ (t : String × (String × String)). press (chooses t.0) (
        el (if active == t.0 then "button.tab-item.active" else "button.tab-item")
          (text t.1.0 & el "span.sm" (text t.1.1))))
      tabs)

abbrev panel_head : String → String → String → View Act
panel_head title about label = el "div" (
    el "div" (el "div" (text title) & el "span.sm.muted" (text about))
    & plain_button "btn btn-approve btn-sm" edits_new label)

abbrev head : List String → View Act
head names = el "thead" (el "tr" (each (λ s. el "th" (text s)) names))

abbrev edit_button : Object → View Act
edit_button o = plain_button "btn btn-sm" (edits o) ""

abbrev delete_button : Object → View Act
delete_button o = plain_button "btn btn-sm btn-reject" (deletes (get o "id")) ""

-- the two buttons of an object that is not built in
unfoldable pub own_buttons : Object → View Act
own_buttons o =
    when (not (truthy (get o "builtin"))) (edit_button o)
    & when (not (truthy (get o "builtin"))) (delete_button o)

-- whether an object is enabled; the colour of the dot says so
abbrev dot : Object → View Act
dot o = el (if truthy (get o "enabled") then "span.dot.on" else "span.dot.off") nothing

-- the row of an event
unfoldable pub rule_row : Object → View Act
unfolding own_buttons sev_badge fmt_cooldown
rule_row r = el "tr" (
    el "td" (dot r)
    & el "td" (el "span.mono.sm" (child (get r "name")))
    & el "td" (el ("span.badge " ⧺ sev_badge (get r "severity")) (child (get r "severity")))
    & el "td.muted.sm" (child (get r "pattern"))
    & el "td.muted.sm" (text (fmt_cooldown (get r "cooldown_seconds")))
    & el "td" (el "div.actions" (own_buttons r)))

-- the rows of a category, below its own
unfoldable pub category_rows : Object → String × List Object → View Act
unfolding rule_row
category_rows collapsed g =
    press (folds g.0) (
      el "tr" (
        el "td" (
          el "div" (
            el "span" (text g.0)
            & el "span.muted.sm" (
                text (
                  show (length (filter (λ r. truthy (get r "enabled")) g.1))
                  ⧺ (" / " ⧺ show (length g.1))))))))
    & when (not (truthy (get collapsed g.0))) (each rule_row g.1)

-- the update of `setCollapsed`
unfoldable pub fold : String → Object → Object
fold cat collapsed = set collapsed cat (bool (not (truthy (get collapsed cat))))

-- `EventsPanel`
unfoldable pub events_view : Object → List Object → View Act
unfolding category_rows group_by_category
events_view collapsed rules =
    panel_head "Events"
      "Log pattern detection rules. Each match emits a named event that handlers can act on."
      " New Event"
    & el "table" (
        head ("" ∷ "Name" ∷ "Severity" ∷ "Pattern" ∷ "Cooldown" ∷ "" ∷ [])
        & el "tbody" (each (category_rows collapsed) (group_by_category rules)))

abbrev type_cell : Object → View Act
type_cell a = el ("span.badge " ⧺ type_badge (get a "type")) (child (get a "type"))

-- `ActionsPanel`
unfoldable pub actions_view : List Object → View Act
unfolding type_badge
actions_view actions =
    panel_head "Actions" "Reusable named actions that can be triggered by event handlers."
      " New Action"
    & el "table" (
        head ("Name" ∷ "Type" ∷ "Description" ∷ "" ∷ [])
        & el "tbody" (
            each
              (λ (a : Object). el "tr" (
                el "td" (el "span.mono.sm" (child (get a "name")))
                & el "td" (type_cell a)
                & el "td.muted.sm" (child (get a "description"))
                & el "td" (el "div.actions" (edit_button a & delete_button a))))
              actions))

-- the last object with an id, as `Object.fromEntries` keeps it
unfoldable pub entry_of : Value → List Object → Option Object
entry_of id [] = none
entry_of id (o ∷ os) =
    let later = entry_of id os in
    elim later [
      | some p ↦ some p
      | none ↦ if to_text (get o "id") == to_text id then some o else none
    ]

abbrev name_of : Option Object → Value
name_of none = str "—"
name_of (some o) = or_else (get o "name") (str "—")

-- the row of a handler
unfoldable pub handler_row : List Object → List Object → Object → View Act
unfolding entry_of type_badge
handler_row rules actions h =
    let rule = entry_of (get h "event_rule_id") rules in
    let action = entry_of (get h "event_action_id") actions in
    el "tr" (
      el "td" (el "span.mono.sm" (child (or_else (get h "event_rule_name") (name_of rule))))
      & el "td" nothing
      & el "td" (el "span.mono.sm" (child (or_else (get h "event_action_name") (name_of action))))
      & el "td" (elim action [ none ↦ nothing | some a ↦ type_cell a ])
      & el "td" (dot h)
      & el "td" (el "div.actions" (edit_button h & delete_button h)))

-- `HandlersPanel`
unfoldable pub handlers_view : List Object → List Object → List Object → View Act
unfolding handler_row
handlers_view rules actions handlers =
    panel_head "Handlers"
      "Bindings that connect an event to an action. Add a handler to a rule set to activate it on a cluster."
      " New Handler"
    & el "table" (
        head ("Event" ∷ "" ∷ "Action" ∷ "Type" ∷ "Enabled" ∷ "" ∷ [])
        & el "tbody" (each (handler_row rules actions) handlers))

-- the row of a rule set
unfoldable pub rule_set_row : Object → View Act
unfolding own_buttons
rule_set_row rs = el "tr" (
    el "td" (
      el "span.mono" (child (get rs "name"))
      & when (truthy (get rs "builtin")) (el "span.badge" (text "built-in")))
    & el "td.sm.muted" (child (or_else (get rs "description") (str "—")))
    & el "td"
        (el "div.actions" (plain_button "btn btn-sm" (manages rs) " Handlers" & own_buttons rs)))

-- `RuleSetsPanel`
unfoldable pub rule_sets_view : List Object → View Act
unfolding rule_set_row
rule_sets_view rule_sets =
    el "div" (
      el "span.sm.muted" (
        text
          "Rule sets are named groups of handlers assigned to profiles to control which automations run on a cluster.")
      & plain_button "btn btn-approve btn-sm" edits_new " New Rule Set")
    & (if eqb (length rule_sets) 0
        then el "div.empty-state" (
            el "h3" (text "No rule sets")
            & el "p" (text "Create a rule set to assign a group of handlers to a profile."))
        else el "table"
            (head ("Name" ∷ "Description" ∷ "" ∷ []) & el "tbody" (each rule_set_row rule_sets)))

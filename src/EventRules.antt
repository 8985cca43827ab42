-- ===== src/EventRules.antt =====
-- dashboard/src/components/EventRulesTab.jsx: the tables of events, actions, handlers and rule sets,
-- and the calls they make. The children hold the views and the editors.
pub mod Laws
pub mod Editors
pub mod RuleModal
pub mod Panels
pub mod Manager
use pg_swarm.Base.{
  ℕ, ◌+◌, ◌/◌, ◌%◌, String, Bool, true, false, not, Option, none, some, List, [], ◌∷◌, ◌++◌, ◌==◌,
  ◌&&◌, if◌then◌else◌, filter, length, eqb, ltb,
}
use pg_swarm.Js.{Value, num, str, Object, get, set, truthy, or_else}
use pg_swarm.Js.Text.{◌⧺◌, to_text, show}
use pg_swarm.Api.Calls.{Call, event_call, rule_set_call}
use pg_swarm.Api.Events.{
  create_event_rule, update_event_rule, delete_event_rule, create_event_action, update_event_action,
  delete_event_action, create_event_handler, update_event_handler, delete_event_handler,
}
use pg_swarm.Api.RuleSets.{create_event_rule_set, update_event_rule_set, delete_event_rule_set}
use pg_swarm.View.Outcome.{Outcome, resolves, rejects}

-- An entry of `ACTION_TYPES`: value, label and badge.
pub record ActionType : Type 0 where
  pub value : String
  pub label : String
  pub badge : String

abbrev action_type : String → String → String → ActionType
action_type v l b = record { value = v; label = l; badge = b }

-- `ACTION_TYPES`
abbrev pub action_types : List ActionType
action_types =
    action_type "restart" "Restart" "badge-amber"
    ∷ action_type "reload" "Reload" "badge-blue"
    ∷ action_type "rebuild" "Rebuild" "badge-red"
    ∷ action_type "reboot" "Reboot" "badge-amber"
    ∷ action_type "rewind" "Rewind" "badge-blue"
    ∷ action_type "exec" "Execute" "badge-blue"
    ∷ []

abbrev find_badge : String → List ActionType → String
find_badge t [] = ""
find_badge t (a ∷ rest) = if a.value == t then a.badge else find_badge t rest

-- `TYPE_MAP[type]?.badge || ''`
unfoldable pub type_badge : Value → String
type_badge t = find_badge (to_text t) action_types

-- `SEVERITIES`
abbrev pub severities : List String
severities = "critical" ∷ "error" ∷ "warning" ∷ "info" ∷ []

-- `SEV_BADGE[severity]` as text
unfoldable pub sev_badge : Value → String
sev_badge (str s) =
    if s == "critical"
    then "badge-red"
    else if s == "error"
    then "badge-amber"
    else if s == "warning"
    then "badge-amber"
    else if s == "info"
    then "badge-blue"
    else "undefined"
sev_badge _ = "undefined"

-- `fmtCooldown`, for a number or a missing value
unfoldable pub fmt_cooldown : Value → String
fmt_cooldown (num s) =
    if eqb s 0
    then "—"
    else if ltb s 60
    then show s ⧺ "s"
    else show (s / 60) ⧺ ("m" ⧺ (if eqb (s % 60) 0 then "" else show (s % 60) ⧺ "s"))
fmt_cooldown _ = "—"

abbrev pub Groups : Type 0
Groups = List (String × List Object)

-- the category of a rule
abbrev pub category_of : Object → String
category_of r = to_text (or_else (get r "category") (str "Custom"))

-- `g[cat].push(r)`, after an empty group where there is none
unfoldable pub add_to_group : String → Object → Groups → Groups
add_to_group cat r [] = (cat, r ∷ []) ∷ []
add_to_group cat r ((c, rs) ∷ gs) =
    if c == cat then (c, rs ++ r ∷ []) ∷ gs else (c, rs) ∷ add_to_group cat r gs

-- the loop of `groupByCategory`
unfoldable pub group_onto : Groups → List Object → Groups
unfolding add_to_group
group_onto g [] = g
group_onto g (r ∷ rs) = group_onto (add_to_group (category_of r) r g) rs

-- `groupByCategory`
unfoldable pub group_by_category : List Object → Groups
unfolding group_onto
group_by_category rules = group_onto [] rules

-- The panels with a table.
pub data Panel : Type 0 where
  events_panel actions_panel handlers_panel rule_sets_panel : Panel

-- what a panel calls its entries
abbrev pub noun : Panel → String
noun events_panel = "Rule"
noun actions_panel = "Action"
noun handlers_panel = "Handler"
noun rule_sets_panel = "Rule set"

abbrev create_call : Panel → Object → Call
create_call events_panel body = event_call (create_event_rule body)
create_call actions_panel body = event_call (create_event_action body)
create_call handlers_panel body = event_call (create_event_handler body)
create_call rule_sets_panel body = rule_set_call (create_event_rule_set body)

abbrev update_call : Panel → String → Object → Call
update_call events_panel id body = event_call (update_event_rule id body)
update_call actions_panel id body = event_call (update_event_action id body)
update_call handlers_panel id body = event_call (update_event_handler id body)
update_call rule_sets_panel id body = rule_set_call (update_event_rule_set id body)

-- the call of a panel's `save`
unfoldable pub save_call : Panel → Object → Call
save_call p o =
    if truthy (get o "id") then update_call p (to_text (get o "id")) o else create_call p o

-- the call of a panel's `del`
unfoldable pub del_call : Panel → String → Call
del_call events_panel id = event_call (delete_event_rule id)
del_call actions_panel id = event_call (delete_event_action id)
del_call handlers_panel id = event_call (delete_event_handler id)
del_call rule_sets_panel id = rule_set_call (delete_event_rule_set id)

-- What a handler leaves: whether the editor is closed, the toast with its flag for errors, and
-- whether it calls `refresh`.
pub record Done : Type 0 where
  pub closed : Bool
  pub shown : String × Bool
  pub refreshed : Bool

-- a panel's `save`, after its call
unfoldable pub after_save : Panel → Object → Outcome → Done
after_save p o (resolves result) = record {
  closed = true;
  shown = (noun p ⧺ (if truthy (get o "id") then " updated" else " created"), false);
  refreshed = true;
}
after_save p o (rejects body message) = record {
  closed = false;
  shown = ("Save failed: " ⧺ message, true);
  refreshed = false;
}

-- a panel's `del`, after its call
unfoldable pub after_del : Panel → Outcome → Done
after_del p (resolves result) = record {
  closed = false;
  shown = (noun p ⧺ " deleted", false);
  refreshed = true;
}
after_del p (rejects body message) = record {
  closed = false;
  shown = ("Delete failed: " ⧺ message, true);
  refreshed = false;
}

-- The tabs: key, label and count.
unfoldable pub tab_counts :
    List Object → List Object → List Object → List Object → List (String × (String × String))
tab_counts rules actions handlers rule_sets =
    ("events", ("Events", show (length rules)))
    ∷ ("actions", ("Actions", show (length actions)))
    ∷ (
      "handlers",
      (
        "Handlers",
        show (length (filter (λ h. truthy (get h "enabled")) handlers))
            ⧺ (" / " ⧺ show (length handlers)),
      ),
    )
    ∷ ("rulesets", ("Rule Sets", show (length rule_sets)))
    ∷ []

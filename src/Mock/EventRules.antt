-- ===== src/Mock/EventRules.antt =====
-- The routes of mock/plugin.js for event rules, event actions and event handlers.
use pg_swarm.Base.{String, Option, none, some, List, [], ◌∷◌, ◌++◌, true, false, find, any, ◌||◌}
use pg_swarm.Js.{Value, str, bool, Object, get, or_else, strict_eq}
use pg_swarm.Js.Text.{◌⧺◌}
use pg_swarm.Mock.{
  State, Host, Request, Handled, json, list, object, ok_true, object_or_404, props, reads_body,
}
use pg_swarm.Mock.Collection.{without_id, patch_by_id, patched_by_id, spread}

pub data EventRoute : Type 0 where
  event_rules create_event_rule update_event_rule delete_event_rule : EventRoute
  event_actions create_event_action update_event_action delete_event_action : EventRoute
  event_handlers create_event_handler update_event_handler delete_event_handler : EventRoute

-- `o?.name || ''`
abbrev pub name_or_empty : Option Object → Value
name_or_empty none = str ""
name_or_empty (some o) = or_else (get o "name") (str "")

-- `xs.find((x) => x.id === v)` for a value of the request
unfoldable pub find_value : Value → List Object → Option Object
find_value v xs = find (λ x. strict_eq (get x "id") v) xs

new_handler : Host → Object → State → Object
unfolding find_value
new_handler host b s =
    let rule = find_value (get b "event_rule_id") s.event_rules in
    let action = find_value (get b "event_action_id") s.event_actions in
    spread
      (("id", str ("eh-" ⧺ host.date_now))
        ∷ ("event_rule_name", name_or_empty rule)
        ∷ ("event_action_name", name_or_empty action)
        ∷ ("enabled", bool true)
        ∷ [])
      b

unfoldable pub handle_event : Host → Request → String → EventRoute → State → Handled
unfolding new_handler
handle_event host req id event_rules s = (s, json 200 (list s.event_rules))
handle_event host req id create_event_rule s =
    let r =
      spread
        (("id", str ("er-" ⧺ host.date_now))
          ∷ ("builtin", bool false)
          ∷ ("enabled", bool true)
          ∷ [])
        (props req.body) in
    (record s { event_rules = s.event_rules ++ r ∷ [] }, json 201 (object r))
handle_event host req id update_event_rule s = (
  record s { event_rules = patch_by_id id (props req.body) [] s.event_rules },
  object_or_404 (patched_by_id id (props req.body) [] s.event_rules),
)
handle_event host req id delete_event_rule s =
    (record s { event_rules = without_id id s.event_rules }, json 200 ok_true)
handle_event host req id event_actions s = (s, json 200 (list s.event_actions))
handle_event host req id create_event_action s =
    let a = spread (("id", str ("ea-" ⧺ host.date_now)) ∷ []) (props req.body) in
    (record s { event_actions = s.event_actions ++ a ∷ [] }, json 201 (object a))
handle_event host req id update_event_action s = (
  record s { event_actions = patch_by_id id (props req.body) [] s.event_actions },
  object_or_404 (patched_by_id id (props req.body) [] s.event_actions),
)
handle_event host req id delete_event_action s =
    (record s { event_actions = without_id id s.event_actions }, json 200 ok_true)
handle_event host req id event_handlers s = (s, json 200 (list s.event_handlers))
handle_event host req id create_event_handler s =
    let h = new_handler host (props req.body) s in
    reads_body req.body (any (λ x. true) s.event_rules || any (λ x. true) s.event_actions) s
      (record s { event_handlers = s.event_handlers ++ h ∷ [] }, json 201 (object h))
handle_event host req id update_event_handler s = (
  record s { event_handlers = patch_by_id id (props req.body) [] s.event_handlers },
  object_or_404 (patched_by_id id (props req.body) [] s.event_handlers),
)
handle_event host req id delete_event_handler s =
    (record s { event_handlers = without_id id s.event_handlers }, json 200 ok_true)

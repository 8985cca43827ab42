-- ===== src/Mock/RuleSets.antt =====
-- The routes of mock/plugin.js for event rule sets and the handlers that belong to them.
pub mod Ids
use pg_swarm.Base.{
  String, Option, none, some, List, [], ◌∷◌, ◌++◌, Bool, false, not, ◌==◌, if◌then◌else◌, filter,
  any,
}
use pg_swarm.Js.{Value, str, bool, Object, get, truthy, is_str, strict_eq}
use pg_swarm.Js.Text.{◌⧺◌, to_text}
use pg_swarm.Mock.{
  State, Host, Request, Handled, json, list, object, ok_true, error_text, object_or_error,
  object_or_404, props, fault,
}
use pg_swarm.Mock.Collection.{find_by_id, without_id, patch_by_id, patched_by_id, spread}
use pg_swarm.Mock.Profiles.{updated, stamps}

pub data RuleSetRoute : Type 0 where
  event_rule_sets create_rule_set get_rule_set update_rule_set delete_rule_set : RuleSetRoute
  rule_set_handlers add_handler remove_handler : RuleSetRoute

-- the object from rule set ids to lists of handler ids
abbrev pub IdMap : Type 0
IdMap = List (String × List Value)

-- `m[k]`
unfoldable pub lookup_ids : String → IdMap → Option (List Value)
lookup_ids k [] = none
lookup_ids k ((j, ids) ∷ m) = if j == k then some ids else lookup_ids k m

-- `m[k] = ids`
unfoldable pub put_ids : String → List Value → IdMap → IdMap
put_ids k ids [] = (k, ids) ∷ []
put_ids k ids ((j, old) ∷ m) = if j == k then (j, ids) ∷ m else (j, old) ∷ put_ids k ids m

-- `delete m[k]`
unfoldable pub delete_ids : String → IdMap → IdMap
delete_ids k [] = []
delete_ids k ((j, ids) ∷ m) = if j == k then delete_ids k m else (j, ids) ∷ delete_ids k m

-- `ids.includes(v)`
unfoldable pub includes : List Value → Value → Bool
includes ids v = any (λ w. strict_eq w v) ids

-- `m[k] || []`; an array is always true
abbrev pub ids_or_empty : Option (List Value) → List Value
ids_or_empty none = []
ids_or_empty (some ids) = ids

-- the body of the POST to a rule set's handlers
unfoldable pub add_id : String → Value → IdMap → IdMap
unfolding lookup_ids put_ids includes
add_id k v m =
    let ids = ids_or_empty (lookup_ids k m) in
    put_ids k (if includes ids v then ids else ids ++ v ∷ []) m

abbrev empty_at : Option (List Value) → String → IdMap → IdMap
empty_at none k m = put_ids k [] m
empty_at (some ids) k m = m

-- `if (!m[k]) m[k] = []`
unfoldable pub ensure_ids : String → IdMap → IdMap
unfolding lookup_ids put_ids
ensure_ids k m = empty_at (lookup_ids k m) k m

-- The POST to a rule set's handlers; of a body null, `b.handler_id` throws after the first write.
unfoldable pub post_handler : Option Object → String → State → Handled
unfolding add_id ensure_ids
post_handler none id s = (record s { rule_set_handlers = ensure_ids id s.rule_set_handlers }, fault)
post_handler (some b) id s = (
  record s { rule_set_handlers = add_id id (get b "handler_id") s.rule_set_handlers },
  json 200 ok_true,
)

-- `ids.filter((x) => x !== hId)`
unfoldable pub without_value : String → List Value → List Value
without_value hid ids = filter (λ v. not (is_str v hid)) ids

-- the body of the DELETE of a rule set's handler
remove_at : Option (List Value) → String → String → IdMap → IdMap
remove_at none k hid m = m
remove_at (some ids) k hid m = put_ids k (without_value hid ids) m

unfoldable pub remove_id : String → String → IdMap → IdMap
unfolding remove_at lookup_ids put_ids without_value
remove_id k hid m = remove_at (lookup_ids k m) k hid m

-- `rs && rs.builtin`
unfoldable pub is_builtin : Option Object → Bool
is_builtin none = false
is_builtin (some rs) = truthy (get rs "builtin")

new_rule_set : Host → Object → Object
new_rule_set host b =
    spread (("id", str ("rs-" ⧺ host.date_now)) ∷ stamps host ++ ("builtin", bool false) ∷ []) b

unfoldable pub handle_rule_set : Host → Request → String → String → RuleSetRoute → State → Handled
unfolding new_rule_set post_handler
handle_rule_set host req id hid event_rule_sets s = (s, json 200 (list s.event_rule_sets))
handle_rule_set host req id hid create_rule_set s =
    let rs = new_rule_set host (props req.body) in
    (
      record s {
        event_rule_sets = s.event_rule_sets ++ rs ∷ [];
        rule_set_handlers = put_ids (to_text (get rs "id")) [] s.rule_set_handlers;
      },
      json 201 (object rs),
    )
handle_rule_set host req id hid get_rule_set s =
    (s, json 200 (object_or_error (find_by_id id s.event_rule_sets)))
handle_rule_set host req id hid update_rule_set s = (
  record s {
    event_rule_sets = patch_by_id id (props req.body) (updated (host.iso 0)) s.event_rule_sets;
  },
  object_or_404 (patched_by_id id (props req.body) (updated (host.iso 0)) s.event_rule_sets),
)
handle_rule_set host req id hid delete_rule_set s =
    if is_builtin (find_by_id id s.event_rule_sets)
    then (s, json 400 (error_text "cannot delete built-in rule set"))
    else (
      record s {
        event_rule_sets = without_id id s.event_rule_sets;
        rule_set_handlers = delete_ids id s.rule_set_handlers;
      },
      json 200 ok_true,
    )
handle_rule_set host req id hid rule_set_handlers s =
    let ids = ids_or_empty (lookup_ids id s.rule_set_handlers) in
    (s, json 200 (list (filter (λ h. includes ids (get h "id")) s.event_handlers)))
handle_rule_set host req id hid add_handler s = post_handler req.body id s
handle_rule_set host req id hid remove_handler s =
    (record s { rule_set_handlers = remove_id id hid s.rule_set_handlers }, json 200 ok_true)

-- ===== src/Api/RuleSets.antt =====
-- Event rule set calls of the `api` object of dashboard/src/api.js: the request that each sends, the route of
-- mock/plugin.js that is meant to answer it, and that the server finds that route.
use pg_swarm.Base.{String, refl, Option, some, [], ◌∷◌}
use pg_swarm.Js.{Value, Object}
use pg_swarm.Js.Text.{◌⧺◌}
use pg_swarm.Mock.{get, post, put, delete}
use pg_swarm.Mock.Paths.{matches, split_slash}
use pg_swarm.Mock.Routes.{Route, rule_set, route_table, first_route, fires}
use pg_swarm.Api.{Sent, sent, no_body}
use pg_swarm.Api.Paths.{
  no_slash, IsId, is_plain-Fixed, Located, locate, split_id, split_verb, split_verb_id,
}
use pg_swarm.Mock.RuleSets.{RuleSetRoute}

pub data RuleSetCall : Type 0 where
  event_rule_sets : RuleSetCall
  create_event_rule_set : (body : Object) → RuleSetCall
  update_event_rule_set : (id : String) → (body : Object) → RuleSetCall
  delete_event_rule_set : (id : String) → RuleSetCall
  list_rule_set_handlers : (id : String) → RuleSetCall
  add_handler_to_rule_set : (id : String) → (handler_id : Value) → RuleSetCall
  remove_handler_from_rule_set : (id : String) → (hid : String) → RuleSetCall

unfoldable pub rule_set_request : RuleSetCall → Sent
rule_set_request event_rule_sets = sent get ("/event-rule-sets") [] no_body
rule_set_request (create_event_rule_set body) = sent post ("/event-rule-sets") [] body
rule_set_request (update_event_rule_set id body) = sent put ("/event-rule-sets/" ⧺ id) [] body
rule_set_request (delete_event_rule_set id) = sent delete ("/event-rule-sets/" ⧺ id) [] no_body
rule_set_request (list_rule_set_handlers id) =
    sent get ("/event-rule-sets/" ⧺ id ⧺ "/handlers") [] no_body
rule_set_request (add_handler_to_rule_set id handler_id) =
    sent post ("/event-rule-sets/" ⧺ id ⧺ "/handlers") [] (("handler_id", handler_id) ∷ [])
rule_set_request (remove_handler_from_rule_set id hid) =
    sent delete ("/event-rule-sets/" ⧺ id ⧺ "/handlers/" ⧺ hid) [] no_body

-- The route that the call is meant for; none where the server has no such route.
abbrev pub rule_set_route : RuleSetCall → Option Route
rule_set_route event_rule_sets = some (rule_set RuleSetRoute.event_rule_sets)
rule_set_route (create_event_rule_set _) = some (rule_set RuleSetRoute.create_rule_set)
rule_set_route (update_event_rule_set _ _) = some (rule_set RuleSetRoute.update_rule_set)
rule_set_route (delete_event_rule_set _) = some (rule_set RuleSetRoute.delete_rule_set)
rule_set_route (list_rule_set_handlers _) = some (rule_set RuleSetRoute.rule_set_handlers)
rule_set_route (add_handler_to_rule_set _ _) = some (rule_set RuleSetRoute.add_handler)
rule_set_route (remove_handler_from_rule_set _ _) = some (rule_set RuleSetRoute.remove_handler)

-- The ids that the call puts into the path: the parts with the indices 2 and 4.
abbrev pub rule_set_ids : RuleSetCall → String × String
rule_set_ids event_rule_sets = ("", "")
rule_set_ids (create_event_rule_set _) = ("", "")
rule_set_ids (update_event_rule_set id _) = (id, "")
rule_set_ids (delete_event_rule_set id) = (id, "")
rule_set_ids (list_rule_set_handlers id) = (id, "")
rule_set_ids (add_handler_to_rule_set id _) = (id, "")
rule_set_ids (remove_handler_from_rule_set id hid) = (id, hid)

-- The ids reach the server as they are.
abbrev pub SafeRuleSetCall : RuleSetCall → Type 0
SafeRuleSetCall event_rule_sets = Unit
SafeRuleSetCall (create_event_rule_set _) = Unit
SafeRuleSetCall (update_event_rule_set id _) = IsId id
SafeRuleSetCall (delete_event_rule_set id) = IsId id
SafeRuleSetCall (list_rule_set_handlers id) = IsId id
SafeRuleSetCall (add_handler_to_rule_set id _) = IsId id
SafeRuleSetCall (remove_handler_from_rule_set id hid) = IsId id × IsId hid

pub rule_set_request-Located :
    (c : RuleSetCall)
    → SafeRuleSetCall c
    → Located (rule_set_request c) (rule_set_ids c) (rule_set_route c)
unfolding rule_set_request no_slash split_slash route_table first_route matches fires
rule_set_request-Located event_rule_sets h = locate _ _ _ _ refl refl refl refl
rule_set_request-Located (create_event_rule_set body) h = locate _ _ _ _ refl refl refl refl
rule_set_request-Located (update_event_rule_set id body) h =
    locate _ _ _ _ (split_id "event-rule-sets" id refl (is_plain-Fixed _ h.0)) (rw h.1 refl) refl
      refl
rule_set_request-Located (delete_event_rule_set id) h =
    locate _ _ _ _ (split_id "event-rule-sets" id refl (is_plain-Fixed _ h.0)) (rw h.1 refl) refl
      refl
rule_set_request-Located (list_rule_set_handlers id) h =
    locate _ _ _ _ (split_verb "event-rule-sets" id "handlers" refl (is_plain-Fixed _ h.0) refl)
      (rw h.1 refl) refl refl
rule_set_request-Located (add_handler_to_rule_set id handler_id) h =
    locate _ _ _ _ (split_verb "event-rule-sets" id "handlers" refl (is_plain-Fixed _ h.0) refl)
      (rw h.1 refl) refl refl
rule_set_request-Located (remove_handler_from_rule_set id hid) h =
    locate _ _ _ _
      (split_verb_id "event-rule-sets" id "handlers" hid refl (is_plain-Fixed _ h.0.0) refl
        (is_plain-Fixed _ h.1.0))
      (rw (h.0.1, h.1.1) refl) refl refl

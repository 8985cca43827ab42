-- ===== src/Api/Events.antt =====
-- The calls for event rules, actions and handlers of the `api` object of dashboard/src/api.js: the request that each sends, the route of
-- mock/plugin.js that is meant to answer it, and that the server finds that route.
use pg_swarm.Base.{String, refl, Option, some, []}
use pg_swarm.Js.{Object}
use pg_swarm.Js.Text.{◌⧺◌}
use pg_swarm.Mock.{get, post, put, delete}
use pg_swarm.Mock.Paths.{matches, split_slash}
use pg_swarm.Mock.Routes.{Route, event, route_table, first_route, fires}
use pg_swarm.Api.{Sent, sent, no_body}
use pg_swarm.Api.Paths.{no_slash, IsId, is_plain-Fixed, Located, locate, split_id}
use pg_swarm.Mock.EventRules.{EventRoute}

pub data EventCall : Type 0 where
  event_rules : EventCall
  create_event_rule : (body : Object) → EventCall
  update_event_rule : (id : String) → (body : Object) → EventCall
  delete_event_rule : (id : String) → EventCall
  event_actions : EventCall
  create_event_action : (body : Object) → EventCall
  update_event_action : (id : String) → (body : Object) → EventCall
  delete_event_action : (id : String) → EventCall
  event_handlers : EventCall
  create_event_handler : (body : Object) → EventCall
  update_event_handler : (id : String) → (body : Object) → EventCall
  delete_event_handler : (id : String) → EventCall

unfoldable pub event_request : EventCall → Sent
event_request event_rules = sent get ("/event-rules") [] no_body
event_request (create_event_rule body) = sent post ("/event-rules") [] body
event_request (update_event_rule id body) = sent put ("/event-rules/" ⧺ id) [] body
event_request (delete_event_rule id) = sent delete ("/event-rules/" ⧺ id) [] no_body
event_request event_actions = sent get ("/event-actions") [] no_body
event_request (create_event_action body) = sent post ("/event-actions") [] body
event_request (update_event_action id body) = sent put ("/event-actions/" ⧺ id) [] body
event_request (delete_event_action id) = sent delete ("/event-actions/" ⧺ id) [] no_body
event_request event_handlers = sent get ("/event-handlers") [] no_body
event_request (create_event_handler body) = sent post ("/event-handlers") [] body
event_request (update_event_handler id body) = sent put ("/event-handlers/" ⧺ id) [] body
event_request (delete_event_handler id) = sent delete ("/event-handlers/" ⧺ id) [] no_body

-- The route that the call is meant for; none where the server has no such route.
abbrev pub event_route : EventCall → Option Route
event_route event_rules = some (event EventRoute.event_rules)
event_route (create_event_rule _) = some (event EventRoute.create_event_rule)
event_route (update_event_rule _ _) = some (event EventRoute.update_event_rule)
event_route (delete_event_rule _) = some (event EventRoute.delete_event_rule)
event_route event_actions = some (event EventRoute.event_actions)
event_route (create_event_action _) = some (event EventRoute.create_event_action)
event_route (update_event_action _ _) = some (event EventRoute.update_event_action)
event_route (delete_event_action _) = some (event EventRoute.delete_event_action)
event_route event_handlers = some (event EventRoute.event_handlers)
event_route (create_event_handler _) = some (event EventRoute.create_event_handler)
event_route (update_event_handler _ _) = some (event EventRoute.update_event_handler)
event_route (delete_event_handler _) = some (event EventRoute.delete_event_handler)

-- The ids that the call puts into the path: the parts with the indices 2 and 4.
abbrev pub event_ids : EventCall → String × String
event_ids event_rules = ("", "")
event_ids (create_event_rule _) = ("", "")
event_ids (update_event_rule id _) = (id, "")
event_ids (delete_event_rule id) = (id, "")
event_ids event_actions = ("", "")
event_ids (create_event_action _) = ("", "")
event_ids (update_event_action id _) = (id, "")
event_ids (delete_event_action id) = (id, "")
event_ids event_handlers = ("", "")
event_ids (create_event_handler _) = ("", "")
event_ids (update_event_handler id _) = (id, "")
event_ids (delete_event_handler id) = (id, "")

-- The ids reach the server as they are.
abbrev pub SafeEventCall : EventCall → Type 0
SafeEventCall event_rules = Unit
SafeEventCall (create_event_rule _) = Unit
SafeEventCall (update_event_rule id _) = IsId id
SafeEventCall (delete_event_rule id) = IsId id
SafeEventCall event_actions = Unit
SafeEventCall (create_event_action _) = Unit
SafeEventCall (update_event_action id _) = IsId id
SafeEventCall (delete_event_action id) = IsId id
SafeEventCall event_handlers = Unit
SafeEventCall (create_event_handler _) = Unit
SafeEventCall (update_event_handler id _) = IsId id
SafeEventCall (delete_event_handler id) = IsId id

pub event_request-Located :
    (c : EventCall) → SafeEventCall c → Located (event_request c) (event_ids c) (event_route c)
unfolding event_request no_slash split_slash route_table first_route matches fires
event_request-Located event_rules h = locate _ _ _ _ refl refl refl refl
event_request-Located (create_event_rule body) h = locate _ _ _ _ refl refl refl refl
event_request-Located (update_event_rule id body) h =
    locate _ _ _ _ (split_id "event-rules" id refl (is_plain-Fixed _ h.0)) (rw h.1 refl) refl refl
event_request-Located (delete_event_rule id) h =
    locate _ _ _ _ (split_id "event-rules" id refl (is_plain-Fixed _ h.0)) (rw h.1 refl) refl refl
event_request-Located event_actions h = locate _ _ _ _ refl refl refl refl
event_request-Located (create_event_action body) h = locate _ _ _ _ refl refl refl refl
event_request-Located (update_event_action id body) h =
    locate _ _ _ _ (split_id "event-actions" id refl (is_plain-Fixed _ h.0)) (rw h.1 refl) refl refl
event_request-Located (delete_event_action id) h =
    locate _ _ _ _ (split_id "event-actions" id refl (is_plain-Fixed _ h.0)) (rw h.1 refl) refl refl
event_request-Located event_handlers h = locate _ _ _ _ refl refl refl refl
event_request-Located (create_event_handler body) h = locate _ _ _ _ refl refl refl refl
event_request-Located (update_event_handler id body) h =
    locate _ _ _ _ (split_id "event-handlers" id refl (is_plain-Fixed _ h.0)) (rw h.1 refl) refl
      refl
event_request-Located (delete_event_handler id) h =
    locate _ _ _ _ (split_id "event-handlers" id refl (is_plain-Fixed _ h.0)) (rw h.1 refl) refl
      refl

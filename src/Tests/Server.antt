-- ===== src/Tests/Server.antt =====
-- The theorems on the mock server, on concrete requests.
use mathlib.Core.List.{Memᴰ}
use pg_swarm.Base.{◌≡◌, ◌⊎◌, refl, String, some, List, [], ◌∷◌}
use pg_swarm.Js.{str, get, has}
use pg_swarm.Mock.{Method, Host, Request}
use pg_swarm.Mock.Routes.{Entry, satellite, route_table, satellite_table, first_route, fires}
use pg_swarm.Mock.Paths.{lit, any_id, strip_api, matches, split_slash}
use pg_swarm.Mock.Satellites.{approve}
use pg_swarm.Mock.Collection.{find_by_id, has_id}
use pg_swarm.Mock.RuleSets.{handle_rule_set, is_builtin, includes}
use pg_swarm.Mock.Routes.Laws.{route_order_irrelevant}
use pg_swarm.Mock.RuleSets.Ids.{AllDistinct}
use pg_swarm.Mock.Server.{serve, handle}
use pg_swarm.Mock.Server.Reads.{serve-get}
use pg_swarm.Mock.Server.Errors.{LeavesEmptyList, serve_fails_clean}
use pg_swarm.Mock.Server.RuleSets.{serve_all, serve_all-AllDistinct, serve_all-IsBuiltin, IsBuiltin}
use pg_swarm.Tests.{host, server, request_to}

abbrev approve_path : List String
approve_path = "" ∷ "satellites" ∷ "sat-1" ∷ "approve" ∷ []

-- The entry that approves a satellite, once more and before all others.
abbrev approve_entry : Entry
approve_entry = record {
  method = some Method.post;
  pattern = lit "" ∷ lit "satellites" ∷ any_id ∷ lit "approve" ∷ [];
  route = satellite approve;
}

approve_listed : (e : Entry) → Memᴰ e (approve_entry ∷ route_table) → Memᴰ e route_table
unfolding route_table satellite_table
approve_listed e (Memᴰ.head p) = Memᴰ.tail (Memᴰ.head p)
approve_listed e (Memᴰ.tail h) = h

route_order_irrelevant_example :
    first_route (approve_entry ∷ route_table) Method.post approve_path
    ≡ first_route route_table Method.post approve_path
route_order_irrelevant_example =
    route_order_irrelevant (approve_entry ∷ route_table) Method.post approve_path approve_listed
      (λ e h. Memᴰ.tail h)

abbrev read_versions : Request
read_versions = request_to Method.get "/api/v1/postgres-versions" []

serve-get_example : (serve host read_versions server).0 ≡ server
serve-get_example = serve-get host read_versions server refl

abbrev delete_default : Request
delete_default = request_to Method.delete "/api/v1/event-rule-sets/rs-default" []

serve_fails_clean_example :
    ((serve host delete_default server).0 ≡ server)
    ⊎ LeavesEmptyList delete_default server (serve host delete_default server).0
unfolding serve strip_api first_route route_table fires matches split_slash handle handle_rule_set
    is_builtin find_by_id has_id get
serve_fails_clean_example = serve_fails_clean host delete_default server refl

abbrev add_eh_2 : Request
add_eh_2 =
    request_to Method.post "/api/v1/event-rule-sets/rs-default/handlers"
      (("handler_id", str "eh-2") ∷ [])

abbrev pub three_requests : List (Host × Request)
three_requests = (host, add_eh_2) ∷ (host, add_eh_2) ∷ (host, delete_default) ∷ []

serve_all-AllDistinct_example : AllDistinct (serve_all three_requests server).rule_set_handlers
unfolding serve_all includes
serve_all-AllDistinct_example = serve_all-AllDistinct three_requests server ((refl, tt), tt)

serve_all-IsBuiltin_example :
    IsBuiltin "rs-default" (serve_all three_requests server).event_rule_sets
unfolding has is_builtin find_by_id has_id get
serve_all-IsBuiltin_example =
    serve_all-IsBuiltin three_requests "rs-default" server
      ((refl, refl), ((refl, refl), ((refl, refl), tt))) refl

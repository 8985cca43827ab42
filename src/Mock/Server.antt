-- ===== src/Mock/Server.antt =====
-- The middleware of mock/plugin.js: from a request to a reply and the state after it.
-- A request and its body are taken as one step: a handler that waits for the body finds the state
-- in which the body arrives.
pub mod Reads
pub mod Errors
pub mod Invariants
pub mod RuleSets
use pg_swarm.Base.{String, Option, none, some}
use pg_swarm.Js.Text.{◌⧺◌}
use pg_swarm.Mock.{
  State, Host, Method, get, post, put, delete, other, Request, Reply, Handled, json, next,
  error_text,
}
use pg_swarm.Mock.Satellites.{handle_satellite}
use pg_swarm.Mock.Clusters.{handle_cluster}
use pg_swarm.Mock.Profiles.{handle_profile, handle_deployment}
use pg_swarm.Mock.Catalog.{handle_catalog, handle_param}
use pg_swarm.Mock.EventRules.{handle_event}
use pg_swarm.Mock.RuleSets.{handle_rule_set}
use pg_swarm.Mock.Paths.{split_slash, strip_api, part_at}
use pg_swarm.Mock.Routes.{
  Route, satellite, cluster, profile, deployment, catalog, event, rule_set, param, route_table,
  first_route,
}

-- The body of the `if` of a route. `id` is `path.split('/')[2]`, `hid` the part with index 4.
unfoldable pub handle : Host → Request → String → String → Route → State → Handled
handle host req id hid (satellite r) s = handle_satellite host req id r s
handle host req id hid (cluster r) s = handle_cluster req id r s
handle host req id hid (profile r) s = handle_profile host req id r s
handle host req id hid (deployment r) s = handle_deployment host req id r s
handle host req id hid (catalog r) s = handle_catalog host req id r s
handle host req id hid (event r) s = handle_event host req id r s
handle host req id hid (rule_set r) s = handle_rule_set host req id hid r s
handle host req id hid (param r) s = handle_param host req id r s

method_text : Method → String
method_text get = "GET"
method_text post = "POST"
method_text put = "PUT"
method_text delete = "DELETE"
method_text (other text) = text

-- the fallback
unfoldable pub unhandled : Request → String → Reply
unfolding method_text
unhandled req path =
    json 404 (error_text ("mock: unhandled route " ⧺ method_text req.method ⧺ " " ⧺ path))

unfoldable pub run_route : Host → Request → String → Option Route → State → Handled
unfolding unhandled
run_route host req path none s = (s, unhandled req path)
run_route host req path (some r) s =
    handle host req (part_at (split_slash path) 2) (part_at (split_slash path) 4) r s

unfoldable pub serve_path : Host → Request → Option String → State → Handled
unfolding run_route
serve_path host req none s = (s, next)
serve_path host req (some path) s =
    run_route host req path (first_route route_table req.method (split_slash path)) s

-- the function given to `server.middlewares.use`
unfoldable pub serve : Host → Request → State → Handled
unfolding serve_path
serve host req s = serve_path host req (strip_api req.pathname) s

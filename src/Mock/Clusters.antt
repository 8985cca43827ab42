-- ===== src/Mock/Clusters.antt =====
-- The cluster, health and event routes of mock/plugin.js.
use pg_swarm.Base.{String, [], ◌∷◌, true, false, take}
use mathlib.Core.Option.{get_or}
use pg_swarm.Js.{str, bool, Object, set}
use pg_swarm.Mock.{State, Request, Handled, json, list, object, object_or_empty}
use pg_swarm.Mock.Collection.{touch, touched}

pub data ClusterRoute : Type 0 where
  clusters pause resume switchover health events : ClusterRoute

-- `cl.paused = true; cl.state = 'paused'`
abbrev pub mark_paused : Object → Object
mark_paused cl = set (set cl "paused" (bool true)) "state" (str "paused")

-- `cl.paused = false; cl.state = 'running'`
abbrev pub mark_running : Object → Object
mark_running cl = set (set cl "paused" (bool false)) "state" (str "running")

unfoldable pub handle_cluster : Request → String → ClusterRoute → State → Handled
handle_cluster req id clusters s = (s, json 200 (list s.clusters))
handle_cluster req id pause s = (
  record s { clusters = touch id mark_paused s.clusters },
  json 200 (object_or_empty (touched id mark_paused s.clusters)),
)
handle_cluster req id resume s = (
  record s { clusters = touch id mark_running s.clusters },
  json 200 (object_or_empty (touched id mark_running s.clusters)),
)
handle_cluster req id switchover s =
    (s, json 200 (object (("ok", bool true) ∷ ("message", str "Switchover initiated") ∷ [])))
handle_cluster req id health s = (s, json 200 (list s.health))
handle_cluster req id events s = (s, json 200 (list (take (get_or req.limit 50) s.events)))

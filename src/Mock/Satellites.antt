-- ===== src/Mock/Satellites.antt =====
-- The satellite routes of mock/plugin.js.
use pg_swarm.Base.{ℕ, String, Option, none, some, any}
use mathlib.Core.Option.{get_or}
use pg_swarm.Js.{str, obj, end, Object, get, set, or_else}
use pg_swarm.Mock.{
  State, Host, Request, Handled, json, logs, stream, list, ok_true, object_or_empty,
  object_or_error, props, reads_body,
}
use pg_swarm.Mock.Collection.{has_id, without_id, touch, touched}

pub data SatelliteRoute : Type 0 where
  satellites approve reject labels refresh_storage_classes tier_mappings : SatelliteRoute
  satellite_logs logs_stream log_level : SatelliteRoute

abbrev pub mark_connected : Host → Object → Object
mark_connected host sat =
    set (set sat "state" (str "connected")) "last_heartbeat" (str (host.iso 0))

-- `sat ? 200 : 404`
abbrev pub found_status : Option Object → ℕ
found_status none = 404
found_status (some _) = 200

unfoldable pub handle_satellite : Host → Request → String → SatelliteRoute → State → Handled
handle_satellite host req id satellites s = (s, json 200 (list s.satellites))
handle_satellite host req id approve s =
    let sat = touched id (mark_connected host) s.satellites in
    (
      record s { satellites = touch id (mark_connected host) s.satellites },
      json (found_status sat) (object_or_error sat),
    )
handle_satellite host req id reject s =
    (record s { satellites = without_id id s.satellites }, json 200 ok_true)
handle_satellite host req id labels s =
    let write =
      λ (sat : Object). set sat "labels" (or_else (get (props req.body) "labels") (obj end)) in
    reads_body req.body (any (has_id id) s.satellites) s (
      record s { satellites = touch id write s.satellites },
      json 200 (object_or_empty (touched id write s.satellites)),
    )
handle_satellite host req id refresh_storage_classes s = (s, json 200 ok_true)
handle_satellite host req id tier_mappings s =
    let write = λ (sat : Object).
      set sat "tier_mappings" (or_else (get (props req.body) "tier_mappings") (obj end)) in
    reads_body req.body (any (has_id id) s.satellites) s (
      record s { satellites = touch id write s.satellites },
      json 200 (object_or_empty (touched id write s.satellites)),
    )
handle_satellite host req id satellite_logs s = (s, logs id (get_or req.limit 200))
handle_satellite host req id logs_stream s = (s, stream id)
handle_satellite host req id log_level s = (s, json 200 ok_true)

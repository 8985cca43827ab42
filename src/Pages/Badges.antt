-- ===== src/Pages/Badges.antt =====
-- dashboard/src/components/Badge.jsx: the badges of satellites and clusters. An icon is its name in
-- the icon library, as an element.
use pg_swarm.Base.{String, ◌==◌, if◌then◌else◌}
use pg_swarm.Js.{Value}
use pg_swarm.Js.Text.{◌⧺◌, to_text}
use pg_swarm.View.{View, nothing, ◌&◌, el, child}

-- `SAT_ICONS[state] || AlertCircle`
unfoldable pub sat_icon : String → String
sat_icon s =
    if s == "connected"
    then "CheckCircle2"
    else if s == "approved"
    then "Clock"
    else if s == "pending"
    then "Clock"
    else if s == "disconnected"
    then "WifiOff"
    else if s == "offline"
    then "XCircle"
    else if s == "replaced"
    then "RefreshCw"
    else "AlertCircle"

-- `SAT_COLORS[state] || 'gray'`
unfoldable pub sat_color : String → String
sat_color s =
    if s == "connected"
    then "green"
    else if s == "approved"
    then "amber"
    else if s == "pending"
    then "amber"
    else if s == "disconnected"
    then "red"
    else if s == "offline"
    then "red"
    else if s == "replaced"
    then "gray"
    else "gray"

-- `CLUSTER_ICONS[state] || AlertCircle`
unfoldable pub cluster_icon : String → String
cluster_icon s =
    if s == "running"
    then "CheckCircle2"
    else if s == "creating"
    then "Loader"
    else if s == "degraded"
    then "AlertCircle"
    else if s == "paused"
    then "Pause"
    else if s == "failed"
    then "XCircle"
    else if s == "deleting"
    then "Trash2"
    else if s == "restarting"
    then "Loader"
    else if s == "updating"
    then "Loader"
    else "AlertCircle"

-- `CLUSTER_COLORS[state] || 'gray'`
unfoldable pub cluster_color : String → String
cluster_color s =
    if s == "running"
    then "green"
    else if s == "creating"
    then "amber"
    else if s == "degraded"
    then "amber"
    else if s == "paused"
    then "amber"
    else if s == "failed"
    then "red"
    else if s == "deleting"
    then "gray"
    else if s == "restarting"
    then "amber"
    else if s == "updating"
    then "blue"
    else "gray"

module _ {ℓ} {A : Type ℓ} where
  -- `Badge`
  abbrev pub badge : Value → String → String → View A
  badge label color icon = el ("span.badge.badge-" ⧺ color) (el icon nothing & child label)

  -- `SatBadge`
  unfoldable pub sat_badge : Value → View A
  unfolding sat_color sat_icon
  sat_badge state = badge state (sat_color (to_text state)) (sat_icon (to_text state))

  -- `ClusterBadge`
  unfoldable pub cluster_badge : Value → View A
  unfolding cluster_color cluster_icon
  cluster_badge state = badge state (cluster_color (to_text state)) (cluster_icon (to_text state))

-- ===== src/Api/Status.antt =====
-- `deriveSatState`, `timeAgo` and `parseSpec` of dashboard/src/api.js.
-- Times are milliseconds; `time_of` is `new Date(v).getTime()`, none for NaN, and `parse` is
-- `JSON.parse`, none where it throws.
pub mod Laws
use pg_swarm.Base.{
  ℕ, ◌+◌, ◌-◌, ◌*◌, ◌/◌, String, Bool, true, false, Option, none, some, List, [], ltb, not,
  if◌then◌else◌,
}
use pg_swarm.Js.{Value, str, obj, end, Object, get, is_str, truthy, or_else}
use pg_swarm.Js.Text.{show, ◌⧺◌}

-- `HEARTBEAT_TIMEOUT_S`
abbrev pub heartbeat_timeout_s : ℕ
heartbeat_timeout_s = 60

-- `age > HEARTBEAT_TIMEOUT_S`, with both sides in milliseconds; NaN is not greater.
abbrev pub is_stale : ℕ → Option ℕ → Bool
is_stale now none = false
is_stale now (some t) = ltb (heartbeat_timeout_s * 1000) (now - t)

-- `deriveSatState`, at the time `now`
unfoldable pub derive_sat_state : (Value → Option ℕ) → ℕ → Object → Value
derive_sat_state time_of now sat =
    if is_str (get sat "state") "pending"
    then str "pending"
    else if is_str (get sat "state") "replaced"
    then str "replaced"
    else if not (truthy (get sat "last_heartbeat"))
    then str "offline"
    else if is_stale now (time_of (get sat "last_heartbeat"))
    then str "offline"
    else get sat "state"

-- The last four lines of `timeAgo`, for `s` seconds that are not negative.
unfoldable pub ago_text : ℕ → String
ago_text s =
    if ltb s 60
    then show s ⧺ "s ago"
    else if ltb s 3600
    then show (s / 60) ⧺ "m ago"
    else if ltb s 86400
    then show (s / 3600) ⧺ "h ago"
    else show (s / 86400) ⧺ "d ago"

-- A time in the future gives a negative number, rounded down; NaN passes no test.
unfoldable pub time_text : ℕ → Option ℕ → String
unfolding ago_text
time_text now none = "NaNd ago"
time_text now (some t) =
    if ltb now t then "-" ⧺ show ((t - now + 999) / 1000) ⧺ "s ago" else ago_text ((now - t) / 1000)

-- `timeAgo`
unfoldable pub time_ago : (Value → Option ℕ) → ℕ → Value → String
unfolding time_text
time_ago time_of now ts = if truthy ts then time_text now (time_of ts) else "never"

abbrev parsed_or_blank : Option Value → Value
parsed_or_blank none = obj end
parsed_or_blank (some v) = v

-- `parseSpec`
unfoldable pub parse_spec : (String → Option Value) → Value → Value
parse_spec parse (str text) = parsed_or_blank (parse text)
parse_spec parse config = or_else config (obj end)

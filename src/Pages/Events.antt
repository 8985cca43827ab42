-- ===== src/Pages/Events.antt =====
-- dashboard/src/pages/Events.jsx: the table of events. `locale_time` is
-- `new Date(v).toLocaleString()`; an icon is its name in the icon library, as an element.
use pg_swarm.Base.{
  ℕ, zero, suc, String, none, some, List, [], ◌∷◌, ◌==◌, if◌then◌else◌, find, length, eqb,
}
use pg_swarm.Js.{Value, Object, get, strict_eq}
use pg_swarm.Js.Text.{◌⧺◌, to_text}
use pg_swarm.View.{View, nothing, text, ◌&◌, el, each, child}

-- `SEV_ICONS[severity] || Info`
unfoldable pub sev_icon : String → String
sev_icon s =
    if s == "warning"
    then "AlertTriangle"
    else if s == "error"
    then "AlertCircle"
    else if s == "critical"
    then "Flame"
    else "Info"

-- `s.substring(0, n)`
unfoldable pub first_chars : ℕ → String → String
first_chars zero s = ""
first_chars (suc n) String.[] = ""
first_chars (suc n) (String.◌∷◌ c s) = String.◌∷◌ c (first_chars n s)

module _ {ℓ} {A : Type ℓ} where
  -- the name of an event's satellite, or the start of its id
  unfoldable pub satellite_cell : List Object → Object → View A
  unfolding first_chars
  satellite_cell satellites e =
      elim (find (λ s. strict_eq (get s "id") (get e "satellite_id")) satellites) [
        | none ↦ text (first_chars 8 (to_text (get e "satellite_id")))
        | some sat ↦ child (get sat "hostname")
      ]

  -- the row of an event
  unfoldable pub event_row : (Value → String) → List Object → Object → View A
  unfolding satellite_cell sev_icon
  event_row locale_time satellites e =
      let severity = get e "severity" in
      el "tr" (
        el "td.sm.muted" (text (locale_time (get e "created_at")))
        & el "td" (
            el ("span.sev-pill.sev-" ⧺ to_text severity)
              (el (sev_icon (to_text severity)) nothing & child severity))
        & el "td.mono" (child (get e "cluster_name"))
        & el "td.sm" (satellite_cell satellites e)
        & el "td.sm" (child (get e "message")))

  -- `Events`
  unfoldable pub events_page : (Value → String) → List Object → List Object → View A
  unfolding event_row
  events_page locale_time satellites events = el "div.card" (
      el "div.card-head" (text "Events")
      & el "table" (
          el "thead" (
            el "tr" (
              each (λ s. el "th" (text s))
                ("Time" ∷ "Severity" ∷ "Cluster" ∷ "Satellite" ∷ "Message" ∷ [])))
          & el "tbody" (
              if eqb (length events) 0
              then el "tr" (el "td.empty" (text "No events recorded"))
              else each (event_row locale_time satellites) events)))

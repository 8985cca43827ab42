-- ===== src/Profiles/Page/Cards.antt =====
-- The cards of the profiles, and the bar for cloning one.
use pg_swarm.Base.{
  ℕ, String, Bool, false, none, some, List, [], ◌∷◌, if◌then◌else◌, find, length, ltb, eqb,
}
use pg_swarm.Js.{Value, null, num, str, Object, get, truthy, or_else, strict_eq}
use pg_swarm.Js.Text.{◌⧺◌, to_text, show}
use pg_swarm.Js.Props.{prop, entries, list_of}
use pg_swarm.Js.Words.{trim, is_empty}
use pg_swarm.View.{View, nothing, text, ◌&◌, el, button, input, when, each, child, plural}
use pg_swarm.Profiles.Page.{
  Page, Act, update, do_clone, open_new, open_edit, remove, cluster_count_for_profile,
}

-- The lists of the data context, and `parseSpec` and `timeAgo` of dashboard/src/api.js at the time
-- of the rendering.
pub record Around : Type 0 where
  pub profiles : List Object
  pub clusters : List Object
  pub event_rule_sets : List Object
  pub parse_spec : Value → Value
  pub time_ago : Value → String

-- `KV`
abbrev pub kv : String → String → View Act
kv label v = el "div" (el "dt" (text label) & el "dd" (text v))

abbrev or_dash : Value → String
or_dash v = to_text (or_else v (str "-"))

-- the definition list of a card
unfoldable pub card_grid : Value → View Act
unfolding prop
card_grid spec =
    let postgres = prop spec "postgres" in
    let resources = prop spec "resources" in
    let version =
      if truthy (prop postgres "version")
      then to_text (prop postgres "version")
        ⧺ (" " ⧺ to_text (or_else (prop postgres "variant") (str "alpine")))
      else "-" in
    el "dl.cl-grid" (
      kv "Replicas" (or_dash (prop spec "replicas"))
      & kv "PostgreSQL" version
      & kv "Storage" (or_dash (prop (prop spec "storage") "size"))
      & kv "CPU"
          (or_dash (prop resources "cpu_request") ⧺ (" / " ⧺ or_dash (prop resources "cpu_limit")))
      & kv "Memory" (
          or_dash (prop resources "memory_request")
          ⧺ (" / " ⧺ or_dash (prop resources "memory_limit"))))

abbrev tag : String → View Act
tag s = el "span.tag" (text s)

-- `spec.replicas > 1`
abbrev above_one : Value → Bool
above_one (num n) = ltb 1 n
above_one _ = false

-- the name of the recovery rule set of a card
unfoldable pub recovery_tag : List Object → Value → View Act
recovery_tag rule_sets id =
    when (truthy id) (elim (find (λ r. strict_eq (get r "id") id) rule_sets) [
      | none ↦ nothing
      | some rs ↦ tag ("recovery: " ⧺ to_text (get rs "name"))
    ])

-- the tags of a card
unfoldable pub card_tags : List Object → Value → Object → View Act
unfolding prop entries recovery_tag
card_tags rule_sets spec p =
    let params = length (entries (prop spec "pg_params")) in
    let rules = length (list_of (prop spec "hba_rules")) in
    let mode = prop (prop spec "archive") "mode" in
    el "div.cl-tags" (
      (if above_one (prop spec "replicas")
        then tag (to_text (prop spec "replicas") ⧺ " replicas")
        else tag "standalone")
      & when (truthy (prop (prop spec "sentinel") "enabled")) (tag "failover")
      & when (truthy mode) (tag ("archive:" ⧺ to_text mode))
      & when (ltb 0 params) (tag (show params ⧺ " pg params"))
      & when (ltb 0 rules) (tag (show rules ⧺ " hba rules"))
      & recovery_tag rule_sets (get p "event_rule_set_id"))

-- `profileVersions[id] || []`
abbrev pub versions_of : Page → Value → List Value
versions_of page id = list_of (get page.profile_versions (to_text id))

abbrev newest : List Value → Value
newest [] = num 0
newest (v ∷ vs) = prop v "version"

-- `latestVersion > 0`
abbrev above_zero : Value → Bool
above_zero (num n) = ltb 0 n
above_zero _ = false

-- the badges of a card
unfoldable pub card_badges : List Value → ℕ → Object → View Act
unfolding prop
card_badges versions cluster_count p = el "div.badges" (
    when (above_zero (newest versions))
      (el "span.badge.badge-blue" (text "v" & child (newest versions)))
    & (if truthy (get p "locked")
        then el "span.badge.badge-amber" (text "In Use")
        else el "span.badge.badge-green" (text "Editable"))
    & when (ltb 0 cluster_count) (
        el "span.badge.badge-gray"
          (text (show cluster_count ⧺ (" cluster" ⧺ plural cluster_count)))))

unfoldable pub show_history : Object → Page → Page
show_history p page = record page { history_target = some p }

unfoldable pub start_clone : Object → Page → Page
start_clone p page = record page {
  clone_target = get p "id";
  clone_name = to_text (get p "name") ⧺ "-copy";
}

-- the foot of a card
unfoldable pub card_foot : Around → List Value → Object → View Act
unfolding show_history start_clone open_edit remove
card_foot a versions p = el "div.cl-foot" (
    el "span" (text (a.time_ago (get p "created_at")))
    & el "span.actions" (
        when (ltb 0 (length versions))
          (button "btn btn-sm btn-blue" false (update (show_history p)) (text "History"))
        & button "btn btn-sm" false (update (open_edit (a.parse_spec (get p "config")) p))
            (text "Edit")
        & button "btn btn-sm" false (update (start_clone p)) (text "Clone")
        & button "btn btn-sm btn-reject" false (update (remove p)) (text "Delete")))

-- the card of a profile
unfoldable pub profile_card : Around → Page → Object → View Act
unfolding card_badges card_grid card_tags card_foot cluster_count_for_profile
profile_card a page p =
    let spec = a.parse_spec (get p "config") in
    let cluster_count = cluster_count_for_profile a.clusters (get p "id") in
    let versions = versions_of page (get p "id") in
    el "div.cl-card" (
      el "div.cl-head" (el "h3" (child (get p "name")) & card_badges versions cluster_count p)
      & el "div.cl-body" (
          when (truthy (get p "description")) (el "p.sm.muted" (child (get p "description")))
          & card_grid spec
          & card_tags a.event_rule_sets spec p)
      & card_foot a versions p)

unfoldable pub set_clone_name : String → Page → Page
set_clone_name t page = record page { clone_name = t }

unfoldable pub close_clone : Page → Page
close_clone page = record page { clone_target = null }

-- the bar for cloning
unfoldable pub clone_bar : Page → View Act
unfolding set_clone_name close_clone trim
clone_bar page = when (truthy page.clone_target) (
    el "div.clone-bar" (
      input "input" (str page.clone_name) false (λ t. update (set_clone_name t))
      & button "btn btn-approve" (is_empty (trim page.clone_name)) do_clone (text "Clone")
      & button "btn btn-reject" false (update close_clone) (text "Cancel")))

-- the page above its dialogs
unfoldable pub profile_list : Around → Page → View Act
unfolding open_new clone_bar profile_card
profile_list a page =
    el "div.card-head-bar" (
      el "span.card-head-title" (text "Cluster Profiles")
      & button "btn btn-approve" false (update open_new) (text "+ New Profile"))
    & clone_bar page
    & el "div.profile-grid" (
        if eqb (length a.profiles) 0
        then el "div.empty" (text "No profiles created yet")
        else each (profile_card a page) a.profiles)

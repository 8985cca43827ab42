-- ===== src/Profiles/Form/General.antt =====
-- The tab `general` of the form, with the list of PostgreSQL versions.
pub mod Laws
use pg_swarm.Base.{
  ℕ, String, false, not, none, some, List, [], ◌∷◌, ◌==◌, ◌&&◌, any, if◌then◌else◌, get_elem?,
}
use pg_swarm.Js.{Value, undefined, null, str, bool, num, Object, get, truthy, or_else}
use pg_swarm.Js.Text.{◌⧺◌, to_text}
use pg_swarm.Js.Props.{prop, put, put_in}
use pg_swarm.Js.Words.{split_char, int_or, upper_first}
use pg_swarm.View.{View, text, ◌&◌, el, input, checkbox, select, option, each, child}
use pg_swarm.Profiles.Form.{Form, Act, update, set_spec, set_name, set_description, set_rule_set}
use pg_swarm.Profiles.Form.Inputs.{row}

-- An entry of `versionOptions`; the image tag is never read.
pub record VersionOption : Type 0 where
  pub version : Value
  pub variant : Value
  pub label : String

-- `${version}|${variant}`
abbrev pub version_value : Value → Value → String
version_value v w = to_text v ⧺ ("|" ⧺ to_text w)

-- an option with its label; the variant is a text
abbrev pub version_option : Value → Value → VersionOption
version_option v w = record {
  version = v;
  variant = w;
  label = to_text v ⧺ (" " ⧺ upper_first (to_text w));
}

-- the loop over `postgresVersions`, with the set `seen`
unfoldable pub listed_versions : List String → List Object → List VersionOption
unfolding upper_first
listed_versions seen [] = []
listed_versions seen (pv ∷ pvs) =
    let v = get pv "version" in
    let w = get pv "variant" in
    let val = version_value v w in
    let known = any (λ s. s == val) seen in
    let rest = listed_versions (if known then seen else val ∷ seen) pvs in
    if known then rest else version_option v w ∷ rest

-- `versionOptions`
unfoldable pub version_options : List Object → Value → List VersionOption
unfolding listed_versions upper_first prop
version_options postgres_versions spec =
    let opts = listed_versions [] postgres_versions in
    let version = prop (prop spec "postgres") "version" in
    let current = or_else (prop (prop spec "postgres") "variant") (str "alpine") in
    let val = version_value version current in
    let is_seen =
      any (λ pv. version_value (get pv "version") (get pv "variant") == val) postgres_versions in
    if truthy version && not is_seen then version_option version current ∷ opts else opts

-- the part of a split text at a position, undefined after the last
abbrev part_or_undefined : ℕ → List String → Value
part_or_undefined i parts = elim (get_elem? parts i) [ none ↦ undefined | some s ↦ str s ]

-- the update by the version select, from the value of the chosen option
unfoldable pub choose_version : String → Value → Value
unfolding split_char put prop
choose_version t s =
    let parts = split_char b'|' t in
    put s "postgres" (
      put (put (prop s "postgres") "version" (part_or_undefined 0 parts)) "variant"
        (part_or_undefined 1 parts))

-- the select of the version
unfoldable pub version_select : List Object → Value → View Act
unfolding version_options choose_version set_spec prop
version_select postgres_versions spec =
    let postgres = prop spec "postgres" in
    let variant = or_else (prop postgres "variant") (str "alpine") in
    let current = str (version_value (prop postgres "version") variant) in
    select current (λ t. update (set_spec (choose_version t)))
      (elim (version_options postgres_versions spec) [
        | [] ↦ option current (child (prop postgres "version") & text " " & child variant)
        | o ∷ opts ↦
            each
              (λ (p : VersionOption).
                option (str (version_value p.version p.variant)) (text p.label))
              (o ∷ opts)
      ])

-- The tab `general`.
unfoldable pub general_tab : List Object → List Object → Form → View Act
unfolding version_select set_spec set_name set_description set_rule_set prop put put_in
general_tab postgres_versions event_rule_sets f =
    let spec = f.editing.spec in
    el "section.form-section" (
      el "h4" (text "Profile")
      & el "div.form-grid" (
          row "Name" (input "input" f.editing.name false λ t. update (set_name (str t)))
          & row "Description"
              (input "input" f.editing.description false λ t. update (set_description (str t)))
          & row "Replicas" (
              input "input number" (prop spec "replicas") false
                λ t. update (set_spec λ s. put s "replicas" (num (int_or t 1))))
          & row "PostgreSQL Version" (version_select postgres_versions spec)
          & row "Registry (optional)" (
              input "input" (or_else (prop (prop spec "postgres") "registry") (str "")) false
                λ t. update (set_spec λ s. put_in s "postgres" "registry" (str t)))
          & row "Failover" (
              el "label.toggle" (
                checkbox (truthy (prop (prop spec "sentinel") "enabled"))
                  (λ c. update (set_spec λ s. put_in s "sentinel" "enabled" (bool c)))
                & el "span" (text "Enabled")))
          & row "Recovery RuleSet" (
              select (or_else f.editing.event_rule_set_id (str ""))
                (λ t. update (set_rule_set (or_else (str t) null)))
                (option (str "") (text "None")
                  & each (λ (rs : Object). option (get rs "id") (child (get rs "name")))
                      event_rule_sets))))

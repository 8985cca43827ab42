-- ===== src/Profiles/Form/Params.antt =====
-- The tab `pgconfig` of the form.
use pg_swarm.Base.{String, Bool, false, not, List, ◌&&◌, ◌||◌, if◌then◌else◌, filter, length, ltb}
use pg_swarm.Js.{Value, undefined, str, get, truthy, or_else, strict_eq}
use pg_swarm.Js.Text.{◌⧺◌, show}
use pg_swarm.Js.Props.{prop}
use pg_swarm.Js.Words.{includes, lower_case, is_empty}
use pg_swarm.View.{View, nothing, text, ◌&◌, el, press, button, input, when, each, child}
use pg_swarm.Profiles.Catalog.{Param, Group, mandatory_params, pg_param_catalog, default_pg_params}
use pg_swarm.Profiles.Form.{
  Form, Act, update, ask, set_spec, set_pg_param, remove_pg_param, add_pg_param, toggle_category,
  changed_params, custom_params,
}

-- `filtered`
unfoldable pub filtered_params : String → List Param → List Param
unfolding includes lower_case
filtered_params pg_search ps =
    let search_lower = lower_case pg_search in
    filter
      (λ p.
        is_empty pg_search
        || includes p.key search_lower
        || includes (lower_case p.desc) search_lower)
      ps

-- a parameter is set and differs from the default given
abbrev pub is_modified : Value → Value → Bool
is_modified current default_val =
    not (strict_eq current undefined) && not (strict_eq current default_val)

abbrev arrow : Bool → String
arrow collapsed = if collapsed then "▶" else "▼"

-- the row of a parameter of the catalog
unfoldable pub param_row : Value → Param → View Act
unfolding set_spec set_pg_param remove_pg_param prop
param_row spec p =
    let current = prop (prop spec "pg_params") p.key in
    let is_set = not (strict_eq current undefined) in
    let class =
      if is_modified current (str p.default_val)
      then "div.param-row.param-modified"
      else "div.param-row" in
    el class (
      el "span.mono.param-key" (text p.key)
      & input "input param-value" (if is_set then current else str p.default_val) false
          (λ t. update (set_spec (set_pg_param p.key (str t))))
      & el "span.param-desc" (text p.desc)
      & when is_set
          (button "btn-icon" false (update (set_spec (remove_pg_param p.key))) (text "×")))

-- one category of the catalog
unfoldable pub category_view : Form → Group → View Act
unfolding param_row filtered_params toggle_category prop default_pg_params
category_view f group =
    let spec = f.editing.spec in
    let filtered = filtered_params f.pg_search group.params in
    let collapsed = truthy (prop f.collapsed_categories group.category) in
    let mod_count = length (
      filter
        (λ (p : Param).
          is_modified (prop (prop spec "pg_params") p.key) (get default_pg_params p.key))
        filtered) in
    when (ltb 0 (length filtered)) (
      el "div.pg-category" (
        press (update (toggle_category group.category)) (
          el "div.pg-category-head" (
            el "span.pg-category-arrow" (text (arrow collapsed))
            & el "span.pg-category-title" (text group.category)
            & el "span.muted.sm" (text (show (length filtered) ⧺ " params"))
            & when (ltb 0 mod_count) (el "span.tab-badge" (text (show mod_count)))))
        & when (not collapsed) (el "div.pg-category-body" (each (param_row spec) filtered))))

-- the parameters that the operator sets
unfoldable pub mandatory_view : Form → View Act
unfolding toggle_category prop mandatory_params
mandatory_view f =
    let collapsed = truthy (prop f.collapsed_categories "_mandatory") in
    el "div.pg-category" (
      press (update (toggle_category "_mandatory")) (
        el "div.pg-category-head" (
          el "span.pg-category-arrow" (text (arrow collapsed))
          & el "span.pg-category-title" (text "Operator-Managed")
          & el "span.muted.sm" (text (show (length mandatory_params) ⧺ " params (read-only)"))))
      & when (not collapsed) (
          el "div.pg-category-body" (
            each
              (λ (p : Param). el "div.param-row.param-readonly" (
                el "span.mono.param-key" (text p.key)
                & el "span.input.param-value.param-disabled" (
                    child
                      (or_else (prop (prop f.editing.spec "pg_params") p.key) (str p.default_val)))
                & el "span.param-desc" (text p.desc)))
              mandatory_params)))

-- the parameters that are not in the catalog
unfoldable pub custom_view : Value → View Act
unfolding set_spec set_pg_param remove_pg_param custom_params
custom_view spec =
    let custom = custom_params spec in
    when (ltb 0 (length custom)) (
      el "div.pg-category" (
        el "div.pg-category-head" (
          el "span.pg-category-arrow" (text "▼")
          & el "span.pg-category-title" (text "Custom Parameters")
          & el "span.muted.sm" (text (show (length custom) ⧺ " params")))
        & el "div.pg-category-body" (
            each
              (λ (e : String × Value). el "div.param-row.param-modified" (
                el "span.mono.param-key" (text e.0)
                & input "input param-value" e.1 false
                    (λ t. update (set_spec (set_pg_param e.0 (str t))))
                & el "span.param-desc" nothing
                & button "btn-icon" false (update (set_spec (remove_pg_param e.0))) (text "×")))
              custom)))

set_search : String → Form → Form
set_search t f = record f { pg_search = t }

-- The tab `pgconfig`.
unfoldable pub params_tab : Form → View Act
unfolding set_search mandatory_view category_view pg_param_catalog custom_view add_pg_param
    changed_params
params_tab f =
    let spec = f.editing.spec in
    let changed = length (changed_params spec) in
    el "section.form-section" (
      el "h4" (text "PostgreSQL Configuration " & el "span.muted.sm" (text "(postgresql.conf)"))
      & el "div.pg-search-bar" (
          input "input" (str f.pg_search) false (λ t. update (set_search t))
          & when (ltb 0 changed)
              (el "span.muted.sm" (text (show changed ⧺ " modified from defaults"))))
      & mandatory_view f
      & each (category_view f) pg_param_catalog
      & custom_view spec
      & button "btn btn-sm" false (ask add_pg_param) (text "+ Add Custom Parameter"))

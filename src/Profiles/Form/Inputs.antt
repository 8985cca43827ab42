-- ===== src/Profiles/Form/Inputs.antt =====
-- The controls that the tabs of the form share.
use pg_swarm.Base.{String, Bool, false, not, List, ◌&&◌, ◌||◌, any}
use pg_swarm.Js.{Value, str, Object, get, truthy, is_str}
use pg_swarm.Js.Text.{◌⧺◌, to_text}
use pg_swarm.Js.Props.{prop, put_in}
use pg_swarm.Js.Words.{starts_with}
use pg_swarm.View.{View, text, ◌&◌, el, input, select, option, when, each}
use pg_swarm.Profiles.Form.{Act, update, set_spec}

-- a labelled row
abbrev pub row : String → View Act → View Act
row label v = el "div.form-row" (el "label" (text label) & v)

-- a text input for `spec.k.j`
abbrev pub section_input : String → String → Value → View Act
section_input k j spec =
    input "input" (prop (prop spec k) j) false λ t. update (set_spec λ s. put_in s k j (str t))

abbrev is_tier : Value → Bool
is_tier (str s) = starts_with s "tier:"
is_tier _ = false

-- `StorageClassSelect`
unfoldable pub storage_class_select : Value → List Object → (String → Act) → View Act
unfolding starts_with
storage_class_select v storage_tiers on_change =
    let has_value =
      not (truthy v)
      || is_tier v
      || any (λ t. is_str v ("tier:" ⧺ to_text (get t "name"))) storage_tiers in
    select v on_change (
      option (str "") (text "Default")
      & when (not has_value && truthy v) (option v (text (to_text v)))
      & each
          (λ (t : Object). option (str ("tier:" ⧺ to_text (get t "name"))) (
            text (to_text (get t "name"))
            & when (truthy (get t "description")) (text (" — " ⧺ to_text (get t "description")))))
          storage_tiers)

-- the select for `spec.k.storage_class`
abbrev pub storage_input : String → Value → List Object → View Act
storage_input k spec tiers =
    storage_class_select (prop (prop spec k) "storage_class") tiers
      λ v. update (set_spec λ s. put_in s k "storage_class" (str v))

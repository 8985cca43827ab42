-- ===== src/Profiles/Form/Whole.antt =====
-- `ProfileForm` of dashboard/src/pages/Profiles.jsx as a whole: its bar of tabs, the tab shown, the
-- report before saving, and the saving.
use pg_swarm.Base.{String, true, false, List, [], ◌∷◌, ◌==◌, ◌&&◌, ltb, length, if◌then◌else◌}
use pg_swarm.Js.{Value, null, Object, truthy}
use pg_swarm.Js.Text.{show}
use pg_swarm.Js.Props.{prop, list_of}
use pg_swarm.View.{View, text, ◌&◌, el, button, when, each}
use pg_swarm.Profiles.Form.{Form, Act, update, cancel, changed_params}
use pg_swarm.Profiles.Form.General.{general_tab}
use pg_swarm.Profiles.Form.Volumes.{volumes_tab, resources_tab}
use pg_swarm.Profiles.Form.Params.{params_tab}
use pg_swarm.Profiles.Form.Rules.{rules_tab}
use pg_swarm.Profiles.Form.Backup.{backup_tab}
use pg_swarm.Profiles.Report.{confirm_report}

-- The lists of the data context that the form is given.
pub record Offered : Type 0 where
  pub postgres_versions : List Object
  pub storage_tiers : List Object
  pub event_rule_sets : List Object
  pub backup_stores : List Object

-- `TABS`, as pairs of id and label
abbrev pub tabs : List (String × String)
tabs =
    ("general", "General")
    ∷ ("volumes", "Volumes")
    ∷ ("resources", "Resources")
    ∷ ("pgconfig", "PostgreSQL")
    ∷ ("hba", "HBA Rules")
    ∷ ("backup", "Backup")
    ∷ []

-- `handleSave`
unfoldable pub handle_save : Form → Form
handle_save f = record f { show_confirm = true }

unfoldable pub choose_tab : String → Form → Form
choose_tab t f = record f { active_tab = t }

-- the start of `confirmSave`
unfoldable pub begin_save : Form → Form
begin_save f = record f { saving = true; save_error = null }

-- the end of `confirmSave`; `result` is what `onSave` returned
unfoldable pub end_save : Value → Form → Form
unfolding prop
end_save result f =
    if truthy (prop result "immutableErrors")
    then record f { saving = false; save_error = result }
    else record f { saving = false }

-- the button of a tab
unfoldable pub tab_item : Form → String × String → View Act
unfolding changed_params prop choose_tab
tab_item f tab =
    let spec = f.editing.spec in
    let changed = length (changed_params spec) in
    let rules = length (list_of (prop spec "hba_rules")) in
    button (if f.active_tab == tab.0 then "tab-item active" else "tab-item") false
      (update (choose_tab tab.0))
      (text tab.1
        & when (tab.0 == "pgconfig" && ltb 0 changed) (el "span.tab-badge" (text (show changed)))
        & when (tab.0 == "hba" && ltb 0 rules) (el "span.tab-badge" (text (show rules))))

-- `ProfileForm`
unfoldable pub profile_form : Offered → Form → View Act
unfolding tab_item handle_save general_tab volumes_tab resources_tab params_tab rules_tab backup_tab
    confirm_report
profile_form offered f =
    let tab = f.active_tab in
    el "div.profile-form" (
      el "div.card-head-bar" (
        el "span.card-head-title"
          (text (if f.editing.is_new then "Create Profile" else "Edit Profile"))
        & el "div.actions" (
            button "btn btn-approve" false (update handle_save) (text "Save")
            & button "btn btn-reject" false cancel (text "Cancel")))
      & el "div.tab-bar" (each (tab_item f) tabs)
      & el "div.tab-content" (
          when (tab == "general") (general_tab offered.postgres_versions offered.event_rule_sets f)
          & when (tab == "volumes") (volumes_tab offered.storage_tiers f)
          & when (tab == "resources") (resources_tab f)
          & when (tab == "pgconfig") (params_tab f)
          & when (tab == "hba") (rules_tab f)
          & when (tab == "backup") (backup_tab offered.backup_stores f))
      & when f.show_confirm (confirm_report f))

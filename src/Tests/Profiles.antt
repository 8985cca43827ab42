-- ===== src/Tests/Profiles.antt =====
-- The theorems on the profiles page at concrete inputs.
use pg_swarm.Base.{false, List, ◌≡◌, ◌↔◌, refl, true, not, String, [], ◌∷◌, any, all, ◌==◌}
use pg_swarm.Js.{Value, str, num, null, Object, get, strict_eq}
use pg_swarm.Js.Props.{prop, put}
use pg_swarm.Js.Words.{is_space}
use pg_swarm.View.{buttons}
use pg_swarm.Profiles.Spec.{object}
use pg_swarm.Profiles.Hba.{Rule, of_user, of_address, parse_hba_rule, format_hba_rule, with_column}
use pg_swarm.Js.Words.Laws.{is_word}
use pg_swarm.Profiles.Hba.Laws.{is_complete, parse_hba_rule-format_hba_rule, cleared_user_shifts}
use pg_swarm.Profiles.Hba.Table.{
  Edit, edit_cell, add_row, remove_row, run_edits, table, run_table, edit_table, stays_complete,
  run_edits_refine_table,
}
use pg_swarm.Profiles.Changes.{places, at, compute_spec_changes}
use pg_swarm.Profiles.Changes.Laws.{same_text, same_param, same_rules, compute_spec_changes-nothing}
use pg_swarm.Profiles.Changes.Overlooks.{compute_spec_changes_overlooks}
use pg_swarm.Profiles.Page.Dialogs.{delete_dialog}
use pg_swarm.Profiles.Page.Laws.{deletes, delete_dialog-deletes}
use pg_swarm.Base.{if◌then◌else◌, String}
use pg_swarm.Js.{undefined, has}
use pg_swarm.Profiles.Form.{remove_pg_param, changed_params}
use pg_swarm.Profiles.Form.Laws.{remove_pg_param_resets}
use pg_swarm.Profiles.Form.General.{version_value, version_options}
use pg_swarm.Profiles.Form.General.Laws.{value_is, version_options-current}
use pg_swarm.Profiles.Spec.{is_spec, is_backup, has_sections, empty_spec}
use pg_swarm.Profiles.Form.Keeps.{
  SpecEdit, switch_backup, write_replicas, add_rule, pick_wal, set_param, edit_rule, apply_edits,
  apply_edits-is_spec,
}

abbrev host_rule : Rule
host_rule = record {
  kind = "host";
  database = "all";
  user = "app";
  address = "10.0.0.0/8";
  method = "md5";
}

parse_hba_rule-format_hba_rule_example : parse_hba_rule (format_hba_rule host_rule) ≡ host_rule
unfolding is_complete is_space is_word
parse_hba_rule-format_hba_rule_example = parse_hba_rule-format_hba_rule host_rule refl

cleared_user_shifts_example :
    parse_hba_rule (format_hba_rule (with_column of_user "" host_rule))
    ≡ record { kind = "host"; database = "all"; user = "10.0.0.0/8"; address = "md5"; method = "" }
unfolding is_complete is_space is_word
cleared_user_shifts_example = cleared_user_shifts host_rule refl refl

abbrev small_spec : Value
small_spec = object (("replicas", num 3) ∷ ("backup", null) ∷ [])

abbrev some_edits : List Edit
some_edits = add_row ∷ edit_cell 0 of_address "::1/128" ∷ add_row ∷ remove_row 0 ∷ []

run_edits_refine_table_example :
    table (run_edits some_edits small_spec) ≡ run_table some_edits (table small_spec)
unfolding stays_complete is_complete is_space is_word table prop edit_table with_column get
run_edits_refine_table_example = run_edits_refine_table some_edits small_spec refl

compute_spec_changes-nothing_example :
    (compute_spec_changes small_spec (put small_spec "backup" (str "nightly")) ≡ []) ↔ (
      (all
          (λ p. same_text (at small_spec p) (at (put small_spec "backup" (str "nightly")) p))
          places
        ≡ true)
      × ((k : String) → same_param small_spec (put small_spec "backup" (str "nightly")) k ≡ true)
      × (same_rules small_spec (put small_spec "backup" (str "nightly")) ≡ true))
compute_spec_changes-nothing_example =
    compute_spec_changes-nothing small_spec (put small_spec "backup" (str "nightly")) refl

compute_spec_changes_overlooks_example :
    compute_spec_changes small_spec
      (put (put small_spec "backup" (str "nightly")) "deletion_protection" (str "on"))
    ≡ compute_spec_changes small_spec small_spec
compute_spec_changes_overlooks_example =
    compute_spec_changes_overlooks small_spec small_spec (str "nightly") (str "on")

abbrev user_of_profile : Object
user_of_profile = ("id", str "c-1") ∷ ("profile_id", str "p-1") ∷ []

delete_dialog-deletes_example :
    any deletes (buttons (delete_dialog (user_of_profile ∷ []) (("id", str "p-1") ∷ [])))
    ≡ not (any (λ c. strict_eq (get c "profile_id") (str "p-1")) (user_of_profile ∷ []))
unfolding get
delete_dialog-deletes_example =
    delete_dialog-deletes (user_of_profile ∷ []) (("id", str "p-1") ∷ [])

abbrev tuned_spec : Value
tuned_spec = object (
    ("postgres", object (("version", str "16") ∷ ("variant", str "debian") ∷ []))
    ∷ ("pg_params", object (("work_mem", str "8MB") ∷ ("jit", str "off") ∷ []))
    ∷ [])

remove_pg_param_resets_example :
    ((j : String)
      → prop (prop (remove_pg_param "jit" tuned_spec) "pg_params") j
        ≡ (if "jit" == j then undefined else prop (prop tuned_spec "pg_params") j))
    × (has (changed_params (remove_pg_param "jit" tuned_spec)) "jit" ≡ false)
remove_pg_param_resets_example = remove_pg_param_resets tuned_spec "jit"

version_options-current_example :
    any
      (value_is (version_value (str "16") (str "debian")))
      (version_options ((("version", str "17") ∷ ("variant", str "alpine") ∷ []) ∷ []) tuned_spec)
    ≡ true
unfolding prop get
version_options-current_example =
    version_options-current ((("version", str "17") ∷ ("variant", str "alpine") ∷ []) ∷ [])
      tuned_spec refl

abbrev spec_edits : List SpecEdit
spec_edits =
    add_rule
    ∷ edit_rule 0 of_user ""
    ∷ switch_backup empty_spec
    ∷ write_replicas 5
    ∷ pick_wal true
    ∷ set_param "jit" (str "off")
    ∷ []

apply_edits-is_spec_example : is_spec (apply_edits spec_edits empty_spec) ≡ true
unfolding is_spec empty_spec prop get is_backup has_sections
apply_edits-is_spec_example = apply_edits-is_spec spec_edits empty_spec refl

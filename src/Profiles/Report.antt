-- ===== src/Profiles/Report.antt =====
-- `ConfirmReport` and `ReportRow` of dashboard/src/pages/Profiles.jsx.
use pg_swarm.Base.{
  String, Bool, false, not, List, [], ◌∷◌, ◌==◌, ◌&&◌, ◌||◌, if◌then◌else◌, length, ltb, eqb,
}
use pg_swarm.Js.{Value, undefined, null, str, Object, get, truthy, or_else, strict_eq}
use pg_swarm.Js.Text.{◌⧺◌, to_text, show}
use pg_swarm.Js.Props.{prop, list_of}
use pg_swarm.View.{View, text, ◌&◌, el, button, when, each, child}
use pg_swarm.Profiles.Catalog.{default_pg_params}
use pg_swarm.Profiles.Spec.{Editing}
use pg_swarm.Profiles.Changes.{Change, compute_spec_changes}
use pg_swarm.Profiles.Form.{Form, Act, update, confirm, changed_params}

-- `ReportRow`
abbrev pub report_row : String → View Act → View Act
report_row label v =
    el "div.report-row" (el "span.report-label" (text label) & el "span.report-value" v)

-- `isEdit`
abbrev pub is_edit : Editing → Bool
is_edit e = not e.is_new && truthy e.original_spec

-- `specChanges`
unfoldable pub spec_changes : Editing → List Change
unfolding compute_spec_changes
spec_changes e = if is_edit e then compute_spec_changes e.original_spec e.spec else []

abbrev head : List String → View Act
head names = el "thead" (el "tr" (each (λ s. el "th" (text s)) names))

-- the fields that the server does not let change
unfoldable pub blocked_section : Value → View Act
unfolding prop
blocked_section save_error = el "div.report-section" (
    el "h5" (text "Blocked - Immutable Fields")
    & el "p" (child (prop save_error "error"))
    & el "table.node-table" (
        head ("Field" ∷ "Current" ∷ "" ∷ "Requested" ∷ [])
        & el "tbody" (
            each
              (λ (ch : Value). el "tr" (
                el "td.mono" (child (prop ch "path"))
                & el "td.mono" (child (prop ch "old_value"))
                & el "td" (text "→")
                & el "td.mono" (child (prop ch "new_value"))))
              (list_of (prop save_error "immutableErrors"))))
    & el "p.muted" (
        text
          "These fields cannot be changed while clusters are using this profile. Go back and revert these fields."))

abbrev or_unset : String → String
or_unset s = if s == "" then "(unset)" else s

-- the table of the changes
unfoldable pub changes_section : List Change → View Act
changes_section changes = el "div.report-section" (
    el "h5" (text "What's Changing " & el "span.tab-badge" (text (show (length changes))))
    & el "table.node-table" (
        head ("Field" ∷ "Before" ∷ "" ∷ "After" ∷ [])
        & el "tbody" (
            each
              (λ (ch : Change). el "tr" (
                el "td.mono" (text ch.path)
                & el "td.mono" (el "span" (text (or_unset ch.old_value)))
                & el "td" (text "→")
                & el "td.mono" (el "span" (text (or_unset ch.new_value)))))
              changes)))

-- a text in brackets after a blank, if there is one
abbrev in_brackets : String → Value → String
in_brackets before v = if truthy v then " (" ⧺ (before ⧺ (to_text v ⧺ ")")) else ""

abbrev slashed : Value → Value → View Act
slashed v w = text (to_text v ⧺ (" / " ⧺ to_text w))

abbrev report_section : String → View Act → View Act
report_section title rows =
    el "div.report-section" (el "h5" (text title) & el "div.report-grid" rows)

abbrev volume_text : Value → View Act
volume_text v = text (to_text (prop v "size") ⧺ in_brackets "" (prop v "storage_class"))

-- the parameters that differ from their defaults
unfoldable pub changed_section : Object → View Act
unfolding default_pg_params
changed_section changed = when (ltb 0 (length changed)) (
    el "div.report-section" (
      el "h5" (
        text "Modified PostgreSQL Parameters " & el "span.tab-badge" (text (show (length changed))))
      & el "div.report-params" (
          each
            (λ (e : String × Value). el "div.report-param" (
              el "span.mono" (text e.0)
              & el "span.mono.report-param-val" (child e.1)
              & when (not (strict_eq (get default_pg_params e.0) undefined))
                  (el "span.muted.sm" (text "default: " & child (get default_pg_params e.0)))))
            changed)))

-- the summary of the whole spec
unfoldable pub summary : Value → Object → View Act
unfolding prop changed_section
summary spec changed =
    let postgres = prop spec "postgres" in
    let resources = prop spec "resources" in
    report_section "Cluster" (
      report_row "Replicas" (child (prop spec "replicas"))
      & report_row "PostgreSQL" (
          text (
            to_text (prop postgres "version")
            ⧺ (" "
                ⧺ (to_text (or_else (prop postgres "variant") (str "alpine"))
                    ⧺ in_brackets "registry: " (prop postgres "registry")))))
      & report_row "Sentinel"
          (text (if truthy (prop (prop spec "sentinel") "enabled") then "Enabled" else "Disabled")))
    & report_section "Volumes" (
        report_row "Data" (volume_text (prop spec "storage"))
        & when (truthy (prop spec "wal_storage"))
            (report_row "WAL" (volume_text (prop spec "wal_storage"))))
    & report_section "Resources" (
        report_row "CPU" (slashed (prop resources "cpu_request") (prop resources "cpu_limit"))
        & report_row "Memory"
            (slashed (prop resources "memory_request") (prop resources "memory_limit")))
    & changed_section changed
    & el "div.report-section" (
        el "h5" (text "HBA Rules")
        & el "div.report-hba" (
            each (λ (rule : Value). el "div.mono.sm" (child rule))
              (list_of (prop spec "hba_rules"))))

-- `onCancel` of the report
unfoldable pub back_to_editing : Form → Form
back_to_editing f = record f { show_confirm = false; save_error = null }

-- `ConfirmReport`
unfoldable pub confirm_report : Form → View Act
unfolding spec_changes blocked_section changes_section summary changed_params back_to_editing
confirm_report f =
    let e = f.editing in
    let edits = is_edit e in
    let changes = spec_changes e in
    let failed = truthy f.save_error in
    let none_found = eqb (length changes) 0 in
    el "div.confirm-overlay" (
      el "div.confirm-modal" (
        el "div.confirm-header" (
          el "h3" (text (if edits then "Review Changes" else "Configuration Report"))
          & el "p.muted.sm" (
              text "Review before saving profile "
              & el "strong" (child (or_else e.name (str "(unnamed)")))))
        & el "div.confirm-body" (
            when failed (blocked_section f.save_error)
            & when (edits && not none_found && not failed) (changes_section changes)
            & when (edits && none_found && not failed)
                (el "div.report-section" (el "p.muted" (text "No configuration changes detected.")))
            & when ((not edits || none_found) && not failed)
                (summary e.spec (changed_params e.spec)))
        & el "div.confirm-footer" (
            when (not failed) (
              button "btn btn-approve" f.saving confirm
                (text (if f.saving then "Saving..." else "Confirm & Save")))
            & button "btn btn-reject" f.saving (update back_to_editing) (text "Back to Editing"))))

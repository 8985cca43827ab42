-- ===== src/Profiles/Form/Backup.antt =====
-- `BackupTab` of dashboard/src/pages/Profiles.jsx.
use pg_swarm.Base.{
  ℕ, String, Bool, true, false, not, List, [], ◌∷◌, ◌||◌, if◌then◌else◌, filter, map, length, eqb,
}
use pg_swarm.Js.{Value, undefined, null, str, bool, num, arr, Object, get, truthy, or_else}
use pg_swarm.Js.Text.{◌⧺◌, to_text}
use pg_swarm.Js.Props.{prop, put, put_in, items, list_of}
use pg_swarm.Js.Words.{split_char, trim, is_empty, int_or, upper_case}
use pg_swarm.View.{View, text, ◌&◌, el, input, checkbox, select, option, when, each, child}
use pg_swarm.Profiles.Spec.{object}
use pg_swarm.Profiles.Cron.{cron_to_text}
use pg_swarm.Profiles.Form.{Form, Act, update, set_spec}
use pg_swarm.Profiles.Form.Inputs.{row}

-- `emptyBackup()`
unfoldable pub empty_backup : Value
empty_backup = object (
    ("store_id", null)
    ∷ (
      "physical",
      object (
          ("enabled", bool false)
          ∷ ("base_schedule", str "0 2 * * 0")
          ∷ ("incremental_schedule", str "")
          ∷ ("wal_archive_enabled", bool true)
          ∷ ("archive_timeout_seconds", num 60)
          ∷ []),
    )
    ∷ (
      "logical",
      object (
          ("enabled", bool false)
          ∷ ("schedule", str "0 3 * * 0")
          ∷ ("databases", arr (items []))
          ∷ ("format", str "custom")
          ∷ []),
    )
    ∷ (
      "retention",
      object (
          ("base_backup_count", num 4)
          ∷ ("incremental_backup_count", num 14)
          ∷ ("wal_retention_days", num 14)
          ∷ ("logical_backup_count", num 4)
          ∷ []),
    )
    ∷ [])

-- `backup != null`
abbrev pub is_enabled : Value → Bool
is_enabled undefined = false
is_enabled null = false
is_enabled _ = true

-- the update of `toggle`; the tab is drawn for the spec given first
unfoldable pub toggle : Value → Value → Value
unfolding put prop empty_backup
toggle spec s =
    if is_enabled (prop spec "backup") then put s "backup" null else put s "backup" empty_backup

-- the update of `setBackup`
unfoldable pub set_backup : (Value → Value) → Value → Value
unfolding put prop empty_backup
set_backup fn s = put s "backup" (fn (or_else (prop s "backup") empty_backup))

-- the updates of `setPhysical`, `setLogical` and `setRetention` to one property: the section is named
unfoldable pub set_part : String → String → Value → Value → Value
unfolding set_backup put_in
set_part k j v s = set_backup (λ b. put_in b k j v) s

-- the databases of a text with commas
unfoldable pub databases_of : String → Value
unfolding split_char trim
databases_of t =
    if is_empty t
    then arr (items [])
    else arr
        (items (map (λ s. str s) (filter (λ s. not (is_empty s)) (map trim (split_char b',' t)))))

abbrev join_with : String → List Value → String
join_with sep [] = ""
join_with sep (v ∷ []) = to_text v
join_with sep (v ∷ w ∷ vs) = to_text v ⧺ (sep ⧺ join_with sep (w ∷ vs))

abbrev edit : String → String → Value → Act
edit k j v = update (set_spec (set_part k j v))

abbrev text_input : String → String → Value → View Act
text_input k j b = input "input mono" (prop (prop b k) j) false (λ t. edit k j (str t))

abbrev number_input : String → String → ℕ → Value → View Act
number_input k j d b =
    input "input number" (prop (prop b k) j) false (λ t. edit k j (num (int_or t d)))

abbrev toggle_input : String → String → String → Value → View Act
toggle_input k j label b =
    el "label.toggle"
      (checkbox (truthy (prop (prop b k) j)) (λ c. edit k j (bool c)) & el "span" (text label))

-- what a schedule means, under its input
abbrev schedule_hint : Value → View Act
schedule_hint v = when (truthy v) (el "span.sm.muted" (text (cron_to_text (to_text v))))

abbrev schedule_row : String → String → String → Value → View Act
schedule_row label k j b =
    el "div.form-row"
      (el "label" (text label) & text_input k j b & schedule_hint (prop (prop b k) j))

-- the select of the backup store
unfoldable pub store_row : List Object → Value → View Act
unfolding set_spec set_backup prop put upper_case
store_row stores b = el "div.form-grid" (
    el "div.form-row" (
      el "label" (text "Backup Store")
      & select (or_else (prop b "store_id") (str ""))
          (λ t. update (set_spec (set_backup λ prev. put prev "store_id" (or_else (str t) null))))
          (option (str "") (text "Select a store...")
            & each
                (λ (s : Object). option (get s "id") (
                  child (get s "name")
                  & text (" (" ⧺ (upper_case (to_text (get s "store_type")) ⧺ ")"))))
                stores)
      & when (eqb (length stores) 0) (
          el "span.sm.muted"
            (text "No backup stores configured. Add one in Admin → Backup Stores."))))

-- the physical backups
unfoldable pub physical_section : Value → View Act
unfolding set_spec set_part prop cron_to_text
physical_section b =
    el "h4" (text "Physical Backups " & el "span.muted.sm" (text "(pg_basebackup + WAL)"))
    & toggle_input "physical" "enabled" "Enable physical backups" b
    & when (truthy (prop (prop b "physical") "enabled")) (
        el "div.form-grid" (
          schedule_row "Base schedule (cron)" "physical" "base_schedule" b
          & schedule_row "Incremental schedule (cron, optional)" "physical" "incremental_schedule" b
          & el "div.form-row" (toggle_input "physical" "wal_archive_enabled" "WAL archiving" b)
          & row "Archive timeout (seconds)"
              (number_input "physical" "archive_timeout_seconds" 60 b)))

-- the logical backups
unfoldable pub logical_section : Value → View Act
unfolding set_spec set_part prop cron_to_text databases_of
logical_section b =
    el "h4" (text "Logical Backups " & el "span.muted.sm" (text "(pg_dump)"))
    & toggle_input "logical" "enabled" "Enable logical backups" b
    & when (truthy (prop (prop b "logical") "enabled")) (
        el "div.form-grid" (
          schedule_row "Schedule (cron)" "logical" "schedule" b
          & row "Databases (comma-separated, empty = all)" (
              input "input" (str (join_with ", " (list_of (prop (prop b "logical") "databases"))))
                false (λ t. edit "logical" "databases" (databases_of t)))
          & row "Format" (
              select (prop (prop b "logical") "format") (λ t. edit "logical" "format" (str t))
                (option (str "custom") (text "Custom (pg_restore compatible)")
                  & option (str "plain") (text "Plain SQL")
                  & option (str "directory") (text "Directory")))))

-- what is kept
unfoldable pub retention_section : Value → View Act
unfolding set_spec set_part prop
retention_section b =
    let physical = truthy (prop (prop b "physical") "enabled") in
    let logical = truthy (prop (prop b "logical") "enabled") in
    when (physical || logical) (
      el "h4" (text "Retention")
      & el "div.form-grid" (
          when physical (
            row "Base backups to keep" (number_input "retention" "base_backup_count" 1 b)
            & row "Incremental backups to keep"
                (number_input "retention" "incremental_backup_count" 0 b)
            & row "WAL retention (days)" (number_input "retention" "wal_retention_days" 1 b))
          & when logical (
              row "Logical backups to keep" (number_input "retention" "logical_backup_count" 1 b))))

-- `BackupTab`
unfoldable pub backup_tab : List Object → Form → View Act
unfolding set_spec toggle store_row physical_section logical_section retention_section
backup_tab backup_stores f =
    let spec = f.editing.spec in
    let backup = prop spec "backup" in
    let enabled = is_enabled backup in
    let b = or_else backup empty_backup in
    el "section.form-section" (
      el "h4" (text "Backup Configuration")
      & el "label.toggle" (
          checkbox enabled (λ _. update (set_spec (toggle spec)))
          & el "span" (text "Enable backups for clusters using this profile"))
      & when enabled (
          store_row backup_stores b & physical_section b & logical_section b & retention_section b))

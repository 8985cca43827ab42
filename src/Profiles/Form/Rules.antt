-- ===== src/Profiles/Form/Rules.antt =====
-- The tab `hba` of the form.
use pg_swarm.Base.{ℕ, String, false, [], ◌∷◌, ◌==◌}
use pg_swarm.Js.{Value, str}
use pg_swarm.Js.Props.{prop, list_of}
use pg_swarm.View.{View, text, ◌&◌, el, button, input, select, option, each, each_at}
use pg_swarm.Profiles.Hba.{
  Column, of_kind, of_database, of_user, of_address, of_method, parse_hba_rule, set_hba_field,
  add_hba_rule, remove_hba_rule, text_or,
}
use pg_swarm.Profiles.Form.{Form, Act, update, set_spec}

-- the edit of a column of rule i
abbrev edit_column : ℕ → Column → String → Act
edit_column i field t = update (set_spec (set_hba_field i field t))

abbrev same_option : String → View Act
same_option s = option (str s) (text s)

-- the row of rule i
unfoldable pub rule_row : ℕ → Value → View Act
unfolding set_spec set_hba_field remove_hba_rule parse_hba_rule
rule_row i rule =
    let parsed = parse_hba_rule (text_or rule) in
    el "tr" (
      el "td" (
        select (str parsed.kind) (edit_column i of_kind) (
          same_option "local"
          & same_option "host"
          & same_option "hostssl"
          & same_option "hostnossl"))
      & el "td" (input "input mono" (str parsed.database) false (edit_column i of_database))
      & el "td" (input "input mono" (str parsed.user) false (edit_column i of_user))
      & el "td" (
          input "input mono" (str parsed.address) (parsed.kind == "local")
            (edit_column i of_address))
      & el "td" (input "input mono" (str parsed.method) false (edit_column i of_method))
      & el "td" (button "btn-icon" false (update (set_spec (remove_hba_rule i))) (text "×")))

-- The tab `hba`.
unfoldable pub rules_tab : Form → View Act
unfolding rule_row set_spec add_hba_rule prop
rules_tab f = el "section.form-section" (
    el "h4" (text "Client Authentication " & el "span.muted.sm" (text "(pg_hba.conf)"))
    & el "p.muted.sm" (
        text
          "Mandatory rules (local trust, host md5, replication) are added automatically by the operator.")
    & el "table.hba-table" (
        el "thead" (
          el "tr" (
            each (λ s. el "th" (text s))
              ("TYPE" ∷ "DATABASE" ∷ "USER" ∷ "ADDRESS" ∷ "METHOD" ∷ "" ∷ [])))
        & el "tbody" (each_at rule_row 0 (list_of (prop f.editing.spec "hba_rules"))))
    & button "btn btn-sm" false (update (set_spec add_hba_rule)) (text "+ Add Rule"))

-- ===== src/Profiles/Hba/Table.antt =====
-- The rules of a spec as a table of columns: what the edits of the form promise.
use pg_swarm.Base.{
  ℕ, zero, suc, String, ◌≡◌, refl, Bool, true, List, [], ◌∷◌, ◌++◌, ◌&&◌, map, all, arith, ap,
}
use pg_swarm.Js.{Value, str}
use pg_swarm.Js.Props.{prop, list_of, list_of-put}
use pg_swarm.Js.Words.{is_space}
use pg_swarm.Profiles.Hba.{
  Rule, Column, parse_hba_rule, with_column, text_or, edit_rules, set_hba_field, add_hba_rule,
  drop_at, remove_hba_rule,
}
use pg_swarm.Profiles.Hba.Laws.{is_complete, parse_hba_rule-format_hba_rule}

-- The edits that the tab offers.
pub data Edit : Type 0 where
  edit_cell : ℕ → Column → String → Edit
  add_row : Edit
  remove_row : ℕ → Edit

-- The edits of a spec, one after the other.
unfoldable pub run_edits : List Edit → Value → Value
run_edits [] s = s
run_edits (edit_cell i c v ∷ es) s = run_edits es (set_hba_field i c v s)
run_edits (add_row ∷ es) s = run_edits es (add_hba_rule s)
run_edits (remove_row i ∷ es) s = run_edits es (remove_hba_rule i s)

-- the columns that the tab shows
unfoldable pub table : Value → List Rule
table s = map (λ v. parse_hba_rule (text_or v)) (list_of (prop s "hba_rules"))

abbrev pub blank_row : Rule
blank_row = record { kind = ""; database = ""; user = ""; address = ""; method = "" }

-- The row with the index is changed; beyond the end, it and the rows before it are blank ones.
unfoldable pub change_at : ℕ → (Rule → Rule) → List Rule → List Rule
change_at zero f [] = f blank_row ∷ []
change_at (suc i) f [] = blank_row ∷ change_at i f []
change_at zero f (r ∷ rs) = f r ∷ rs
change_at (suc i) f (r ∷ rs) = r ∷ change_at i f rs

unfoldable pub remove_at : ℕ → List Rule → List Rule
remove_at i [] = []
remove_at zero (r ∷ rs) = rs
remove_at (suc i) (r ∷ rs) = r ∷ remove_at i rs

abbrev pub new_row : Rule
new_row = record {
  kind = "host";
  database = "all";
  user = "all";
  address = "0.0.0.0/0";
  method = "md5";
}

-- An edit of the table.
unfoldable pub edit_table : Edit → List Rule → List Rule
unfolding change_at remove_at
edit_table (edit_cell i c v) rs = change_at i (with_column c v) rs
edit_table add_row rs = rs ++ new_row ∷ []
edit_table (remove_row i) rs = remove_at i rs

unfoldable pub run_table : List Edit → List Rule → List Rule
run_table [] rs = rs
run_table (e ∷ es) rs = run_table es (edit_table e rs)

-- After every edit all rows are complete.
unfoldable pub stays_complete : List Edit → List Rule → Bool
stays_complete [] rs = true
stays_complete (e ∷ es) rs =
    all is_complete (edit_table e rs) && stays_complete es (edit_table e rs)

parse_hba_rule-blank : parse_hba_rule "" ≡ blank_row
unfolding parse_hba_rule
parse_hba_rule-blank = refl

map-edit_rules :
    (i : ℕ) (c : Column) (t : String) (vs : List Value)
    → all is_complete (change_at i (with_column c t) (map (λ v. parse_hba_rule (text_or v)) vs))
      ≡ true
    → map (λ v. parse_hba_rule (text_or v)) (edit_rules i c t vs)
      ≡ change_at i (with_column c t) (map (λ v. parse_hba_rule (text_or v)) vs)
unfolding edit_rules change_at
map-edit_rules zero c t [] h =
    rw
      (
        parse_hba_rule-blank,
        parse_hba_rule-format_hba_rule (with_column c t blank_row) (ground arith),
      )
      refl
map-edit_rules (suc i) c t [] h =
    ap (λ rows. blank_row ∷ rows) (map-edit_rules i c t [] (ground arith))
map-edit_rules zero c t (v ∷ vs) h =
    rw
      (parse_hba_rule-format_hba_rule (with_column c t (parse_hba_rule (text_or v))) (ground arith))
      refl
map-edit_rules (suc i) c t (v ∷ vs) h =
    ap (◌∷◌ (parse_hba_rule (text_or v))) (map-edit_rules i c t vs (ground arith))

map-drop_at :
    (i : ℕ) (vs : List Value)
    → map (λ v. parse_hba_rule (text_or v)) (drop_at i vs)
      ≡ remove_at i (map (λ v. parse_hba_rule (text_or v)) vs)
unfolding drop_at remove_at
map-drop_at i [] = refl
map-drop_at zero (v ∷ vs) = refl
map-drop_at (suc i) (v ∷ vs) = ap (◌∷◌ (parse_hba_rule (text_or v))) (map-drop_at i vs)

map-append_row :
    (vs : List Value)
    → map (λ v. parse_hba_rule (text_or v)) (vs ++ str "host all all 0.0.0.0/0 md5" ∷ [])
      ≡ map (λ v. parse_hba_rule (text_or v)) vs ++ new_row ∷ []
unfolding parse_hba_rule is_space
map-append_row [] = refl
map-append_row (v ∷ vs) = ap (◌∷◌ (parse_hba_rule (text_or v))) (map-append_row vs)

table-edit :
    (i : ℕ) (c : Column) (t : String) (s : Value)
    → all is_complete (edit_table (edit_cell i c t) (table s)) ≡ true
    → table (set_hba_field i c t s) ≡ edit_table (edit_cell i c t) (table s)
unfolding table set_hba_field edit_table
table-edit i c t s h =
    rw (list_of-put s "hba_rules" (edit_rules i c t (list_of (prop s "hba_rules"))))
      (map-edit_rules i c t (list_of (prop s "hba_rules")) h)

table-add : (s : Value) → table (add_hba_rule s) ≡ edit_table add_row (table s)
unfolding table add_hba_rule edit_table
table-add s =
    rw
      (list_of-put s "hba_rules"
        (list_of (prop s "hba_rules") ++ str "host all all 0.0.0.0/0 md5" ∷ []))
      (map-append_row (list_of (prop s "hba_rules")))

table-remove :
    (i : ℕ) (s : Value) → table (remove_hba_rule i s) ≡ edit_table (remove_row i) (table s)
unfolding table remove_hba_rule edit_table
table-remove i s =
    rw (list_of-put s "hba_rules" (drop_at i (list_of (prop s "hba_rules"))))
      (map-drop_at i (list_of (prop s "hba_rules")))

-- Any edits of a spec's rules by the tab show the table that the same edits of the table shown
-- before make, provided that after every edit all rows of that table are complete: their columns are
-- words, with no address in a local one.
pub run_edits_refine_table :
    (es : List Edit) (s : Value)
    → stays_complete es (table s) ≡ true
    → table (run_edits es s) ≡ run_table es (table s)
unfolding run_edits run_table stays_complete
run_edits_refine_table [] s h = refl
run_edits_refine_table (edit_cell i c t ∷ es) s h =
    let here = table-edit i c t s (ground arith) in
    rw (← here) (run_edits_refine_table es (set_hba_field i c t s) (rw here (ground arith)))
run_edits_refine_table (add_row ∷ es) s h =
    let here = table-add s in
    rw (← here) (run_edits_refine_table es (add_hba_rule s) (rw here (ground arith)))
run_edits_refine_table (remove_row i ∷ es) s h =
    let here = table-remove i s in
    rw (← here) (run_edits_refine_table es (remove_hba_rule i s) (rw here (ground arith)))

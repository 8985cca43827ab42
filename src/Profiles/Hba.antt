-- ===== src/Profiles/Hba.antt =====
-- The client authentication rules of the form in dashboard/src/pages/Profiles.jsx: the columns of a
-- rule's text, and the edit of one column.
pub mod Laws
pub mod Table
pub mod Texts
use pg_swarm.Base.{
  ℕ, zero, suc, String, Bool, true, false, Option, none, some, List, [], ◌∷◌, ◌++◌, ◌==◌, ◌&&◌,
  if◌then◌else◌, eqb, get_elem?, map,
}
use pg_swarm.Js.{Value, undefined, str, arr, or_else}
use pg_swarm.Js.Text.{◌⧺◌}
use pg_swarm.Js.Props.{prop, put, list_of, items}
use pg_swarm.Js.Words.{trim, words, runs}

-- The columns that `parseHbaRule` reads.
pub record Rule : Type 0 where
  pub kind : String
  pub database : String
  pub user : String
  pub address : String
  pub method : String

-- The names of the columns; `kind` is the property `type`.
pub data Column : Type 0 where
  of_kind of_database of_user of_address of_method : Column

-- `parts[i] || ''`
abbrev pub part : ℕ → List String → String
part i parts = elim (get_elem? parts i) [ none ↦ "" | some s ↦ s ]

abbrev pub of_parts : List String → Rule
of_parts parts =
    if part 0 parts == "local"
    then record {
      kind = "local";
      database = part 1 parts;
      user = part 2 parts;
      address = "";
      method = part 3 parts;
    }
    else record {
      kind = part 0 parts;
      database = part 1 parts;
      user = part 2 parts;
      address = part 3 parts;
      method = part 4 parts;
    }

-- `parseHbaRule`
unfoldable pub parse_hba_rule : String → Rule
unfolding words
parse_hba_rule rule = of_parts (words rule)

-- `formatHbaRule`
unfoldable pub format_hba_rule : Rule → String
unfolding trim
format_hba_rule r =
    if r.kind == "local"
    then trim ("local" ⧺ (" " ⧺ (r.database ⧺ (" " ⧺ (r.user ⧺ (" " ⧺ r.method))))))
    else trim
        (r.kind ⧺ (" " ⧺ (r.database ⧺ (" " ⧺ (r.user ⧺ (" " ⧺ (r.address ⧺ (" " ⧺ r.method))))))))

-- `parsed[field] = value`, and the address that a local rule loses
unfoldable pub with_column : Column → String → Rule → Rule
with_column of_kind v r =
    if v == "local" then record r { kind = v; address = "" } else record r { kind = v }
with_column of_database v r = record r { database = v }
with_column of_user v r = record r { user = v }
with_column of_address v r = record r { address = v }
with_column of_method v r = record r { method = v }

abbrev pub text_or : Value → String
text_or (str s) = s
text_or _ = ""

-- The rule at the index is rewritten. Beyond the end, `rules[idx] || ''` is the empty text, and the
-- write of `rules[idx]` leaves holes before it, which read as undefined.
unfoldable pub edit_rules : ℕ → Column → String → List Value → List Value
unfolding parse_hba_rule format_hba_rule with_column
edit_rules zero field v [] = str (format_hba_rule (with_column field v (parse_hba_rule ""))) ∷ []
edit_rules (suc i) field v [] = undefined ∷ edit_rules i field v []
edit_rules zero field v (rule ∷ rules) =
    str (format_hba_rule (with_column field v (parse_hba_rule (text_or rule)))) ∷ rules
edit_rules (suc i) field v (rule ∷ rules) = rule ∷ edit_rules i field v rules

-- the update of `setHbaField`
unfoldable pub set_hba_field : ℕ → Column → String → Value → Value
unfolding edit_rules
set_hba_field i field v s =
    put s "hba_rules" (arr (items (edit_rules i field v (list_of (prop s "hba_rules")))))

-- the update of `addHbaRule`
unfoldable pub add_hba_rule : Value → Value
add_hba_rule s =
    put s "hba_rules"
      (arr (items (list_of (prop s "hba_rules") ++ str "host all all 0.0.0.0/0 md5" ∷ [])))

-- `rules.filter((_, i) => i !== idx)`
unfoldable pub drop_at : ℕ → List Value → List Value
drop_at i [] = []
drop_at zero (rule ∷ rules) = rules
drop_at (suc i) (rule ∷ rules) = rule ∷ drop_at i rules

-- the update of `removeHbaRule`
unfoldable pub remove_hba_rule : ℕ → Value → Value
unfolding drop_at
remove_hba_rule i s = put s "hba_rules" (arr (items (drop_at i (list_of (prop s "hba_rules")))))

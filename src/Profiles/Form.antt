-- ===== src/Profiles/Form.antt =====
-- `ProfileForm` of dashboard/src/pages/Profiles.jsx: its state and the updates of the spec. The
-- children hold the view, one tab each.
pub mod Laws
pub mod Keeps
pub mod Inputs
pub mod General
pub mod Volumes
pub mod Params
pub mod Rules
pub mod Backup
pub mod Whole
use pg_swarm.Base.{
  ℕ, String, Bool, true, false, not, Option, none, some, List, [], ◌∷◌, ◌==◌, ◌&&◌, if◌then◌else◌,
  filter, eqb,
}
use pg_swarm.Js.{Value, obj, end, null, bool, str, Object, get, truthy, strict_eq}
use pg_swarm.Js.Props.{prop, put, without, put_in, entries}
use pg_swarm.Js.Words.{is_empty}
use pg_swarm.Profiles.Catalog.{Param, Group, default_pg_params, pg_param_catalog}
use pg_swarm.Profiles.Spec.{Editing}

-- `state` of the page, and the form's own state.
pub record Form : Type 0 where
  pub editing : Editing
  pub active_tab : String
  pub show_confirm : Bool
  pub saving : Bool
  -- null, or an object with `error` and `immutableErrors`
  pub save_error : Value
  pub pg_search : String
  pub collapsed_categories : Value

-- What a control of the form does: it changes the state, calls `onCancel`, starts `confirmSave`, or
-- asks for a text (none when the dialog is dismissed) and changes the state by it.
pub data Act : Type 0 where
  update : (Form → Form) → Act
  cancel : Act
  confirm : Act
  ask : (Option String → Form → Form) → Act

-- `setSpec`
unfoldable pub set_spec : (Value → Value) → Form → Form
set_spec fn f = record f { editing = record f.editing { spec = fn f.editing.spec } }

-- `setField`, which is called for these two properties
unfoldable pub set_name : Value → Form → Form
set_name v f = record f { editing = record f.editing { name = v } }

unfoldable pub set_description : Value → Form → Form
set_description v f = record f { editing = record f.editing { description = v } }

-- the update of the recovery rule set
unfoldable pub set_rule_set : Value → Form → Form
set_rule_set v f = record f { editing = record f.editing { event_rule_set_id = v } }

-- the update of `setPgParam`
unfoldable pub set_pg_param : String → Value → Value → Value
unfolding put_in
set_pg_param key v s = put_in s "pg_params" key v

-- the update of `removePgParam`
unfoldable pub remove_pg_param : String → Value → Value
unfolding put without prop
remove_pg_param key s = put s "pg_params" (without (prop s "pg_params") key)

-- `addPgParam`
unfoldable pub add_pg_param : Option String → Form → Form
unfolding set_pg_param set_spec prop
add_pg_param none f = f
add_pg_param (some key) f =
    if not (is_empty key) && not (truthy (prop (prop f.editing.spec "pg_params") key))
    then set_spec (set_pg_param key (str "")) f
    else f

-- `toggleCategory`
unfoldable pub toggle_category : String → Form → Form
unfolding put prop
toggle_category cat f =
    let shown = prop f.collapsed_categories cat in
    record f { collapsed_categories = put f.collapsed_categories cat (bool (not (truthy shown))) }

-- `changedParams`
unfoldable pub changed_params : Value → Object
unfolding entries prop default_pg_params
changed_params s =
    filter (λ e. not (strict_eq (get default_pg_params e.0) e.1)) (entries (prop s "pg_params"))

abbrev pub has_param : String → List Param → Bool
has_param k [] = false
has_param k (p ∷ ps) = if p.key == k then true else has_param k ps

-- `catalogKeys.has(k)`
abbrev pub in_groups : String → List Group → Bool
in_groups k [] = false
in_groups k (g ∷ gs) = if has_param k g.params then true else in_groups k gs

-- `customParams`
unfoldable pub custom_params : Value → Object
unfolding entries prop pg_param_catalog
custom_params s = filter (λ e. not (in_groups e.0 pg_param_catalog)) (entries (prop s "pg_params"))

-- The state that the form is opened in.
unfoldable pub opened_form : Editing → Form
opened_form e = record {
  editing = e;
  active_tab = "general";
  show_confirm = false;
  saving = false;
  save_error = null;
  pg_search = "";
  collapsed_categories = obj end;
}

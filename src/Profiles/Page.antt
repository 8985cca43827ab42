-- ===== src/Profiles/Page.antt =====
-- `Profiles` of dashboard/src/pages/Profiles.jsx: the state of the page and its handlers. The
-- children hold the cards and the dialogs, and what the dialogs offer.
pub mod Cards
pub mod Dialogs
pub mod Laws
use pg_swarm.Base.{
  ℕ, String, Bool, true, false, not, Option, none, some, List, [], ◌∷◌, ◌++◌, ◌&&◌, if◌then◌else◌,
  filter, length,
}
use Prim.Native.Char.{code}
use Prim.Native.String
use pg_swarm.Base.{eqb}
use pg_swarm.Js.{
  Value, undefined, null, str, bool, obj, arr, Object, get, set, truthy, strict_eq, or_else,
}
use pg_swarm.Js.Text.{◌⧺◌, to_text, show}
use pg_swarm.Js.Props.{prop, items, of_items, list_of, entries}
use pg_swarm.Api.Profiles.{
  ProfileCall, create_profile, update_profile, delete_profile, clone_profile,
}
use pg_swarm.View.Outcome.{Outcome, resolves, rejects}
use pg_swarm.Profiles.Spec.{Editing, object, start_create, start_edit}

-- `editing`, `cloneName`, `cloneTarget`, `cascadeTarget`, `profileVersions` and `historyTarget`
pub record Page : Type 0 where
  pub editing : Option Editing
  pub clone_name : String
  pub clone_target : Value
  pub cascade_target : Option Object
  pub profile_versions : Object
  pub history_target : Option Object

abbrev pub opened_page : Page
opened_page = record {
  editing = none;
  clone_name = "";
  clone_target = null;
  cascade_target = none;
  profile_versions = [];
  history_target = none;
}

-- What a handler leaves behind: the page, the toast it shows with its flag for errors, whether it
-- calls `refresh`, and what it returns.
pub record Left : Type 0 where
  pub page : Page
  pub shown : Option (String × Bool)
  pub refreshed : Bool
  pub returned : Value

abbrev pub left : Page → String → Bool → Left
left p message is_error = record {
  page = p;
  shown = some (message, is_error);
  refreshed = not is_error;
  returned = undefined;
}

-- the versions that were loaded, or none for a profile whose call failed
abbrev pub loaded : Outcome → Value
loaded (resolves vs) = vs
loaded (rejects b m) = arr (items [])

unfoldable pub collect_versions : List (String × Outcome) → Object → Object
collect_versions [] o = o
collect_versions ((id, r) ∷ rs) o = collect_versions rs (set o id (loaded r))

-- the effect that loads the versions of all profiles, once all calls are settled
unfoldable pub versions_arrive : List (String × Outcome) → Page → Page
unfolding collect_versions
versions_arrive [] p = p
versions_arrive (r ∷ rs) p = record p { profile_versions = collect_versions (r ∷ rs) [] }

-- `startCreate` and `startEdit`; the spec is what `parseSpec` makes of the profile's config
unfoldable pub open_new : Page → Page
unfolding start_create
open_new p = record p { editing = some start_create }

unfoldable pub open_edit : Value → Object → Page → Page
unfolding start_edit
open_edit spec profile p = record p { editing = some (start_edit spec profile) }

-- `clusterCountForProfile`
unfoldable pub cluster_count_for_profile : List Object → Value → ℕ
cluster_count_for_profile clusters profile_id =
    length (filter (λ c. strict_eq (get c "profile_id") profile_id) clusters)

-- the call that `save` makes
unfoldable pub save_call : Editing → ProfileCall
save_call e =
    let payload =
      ("name", e.name)
      ∷ ("description", e.description)
      ∷ ("config", e.spec)
      ∷ ("event_rule_set_id", or_else e.event_rule_set_id null)
      ∷ [] in
    if e.is_new then create_profile payload else update_profile (to_text e.id) payload

-- `s.replace(/_/g, ' ')`
unfoldable pub blank_underscores : String → String
blank_underscores String.[] = ""
blank_underscores (String.◌∷◌ c s) =
    let rest = blank_underscores s in if eqb (code c) b'_' then " " ⧺ rest else String.◌∷◌ c rest

-- the toast of a save
unfoldable pub saved_message : Bool → Value → String
unfolding blank_underscores prop
saved_message is_new result =
    let impact = prop result "change_impact" in
    if is_new
    then "Profile created"
    else if truthy impact
    then "Profile updated — "
      ⧺ (blank_underscores (to_text (prop impact "apply_strategy"))
          ⧺ (" required on "
              ⧺ (show (length (list_of (prop impact "affected_clusters"))) ⧺ " cluster(s)")))
    else "Profile updated"

-- `save`, after its call
unfoldable pub after_save : Editing → Outcome → Page → Left
unfolding saved_message prop
after_save e (resolves result) p =
    left (record p { editing = none }) (saved_message e.is_new result) false
after_save e (rejects body message) p =
    let errors = prop body "immutable_errors" in
    if truthy errors
    then record {
      page = p;
      shown = none;
      refreshed = false;
      returned = object (("immutableErrors", errors) ∷ ("error", prop body "error") ∷ []);
    }
    else left p ("Save failed: " ⧺ message) true

-- `remove`
unfoldable pub remove : Object → Page → Page
remove profile p = record p { cascade_target = some profile }

-- the call that `confirmDelete` makes, none without a target
unfoldable pub delete_call : Page → Option ProfileCall
delete_call p = elim p.cascade_target [
  | none ↦ none
  | some t ↦ some (delete_profile (to_text (get t "id")))
]

-- `confirmDelete`, after its call
unfoldable pub after_delete : Outcome → Page → Left
after_delete (resolves result) p = left (record p { cascade_target = none }) "Profile deleted" false
after_delete (rejects body message) p = left p ("Delete failed: " ⧺ message) true

-- the call that `doClone` makes
unfoldable pub clone_call : Page → ProfileCall
clone_call p = clone_profile (to_text p.clone_target) (str p.clone_name)

-- `doClone`, after its call
unfoldable pub after_clone : Outcome → Page → Left
after_clone (resolves result) p =
    left (record p { clone_target = null; clone_name = "" }) "Profile cloned" false
after_clone (rejects body message) p = left p ("Clone failed: " ⧺ message) true

-- What a control of the page does: it changes the state, or starts `doClone` or `confirmDelete`.
pub data Act : Type 0 where
  update : (Page → Page) → Act
  do_clone : Act
  confirm_delete : Act

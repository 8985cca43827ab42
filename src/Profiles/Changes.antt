-- ===== src/Profiles/Changes.antt =====
-- `computeSpecChanges` of dashboard/src/pages/Profiles.jsx.
pub mod Laws
pub mod Overlooks
use Prim.Native.String
use pg_swarm.Base.{
  ℕ, String, Bool, true, false, not, List, [], ◌∷◌, ◌++◌, ◌==◌, if◌then◌else◌, map, any, length,
}
use pg_swarm.Js.{Value, undefined, null, str, obj, Object, get, truthy}
use pg_swarm.Js.Text.{◌⧺◌, to_text, show}
use pg_swarm.Js.Props.{prop, entries, list_of}

pub record Change : Type 0 where
  pub path : String
  pub old_value : String
  pub new_value : String

-- `String(v ?? '')`
abbrev pub text_or_blank : Value → String
text_or_blank undefined = ""
text_or_blank null = ""
text_or_blank v = to_text v

-- `add`
unfoldable pub add : String → Value → Value → List Change
add path old_val new_val =
    let o = text_or_blank old_val in
    let n = text_or_blank new_val in
    if o == n then [] else record { path = path; old_value = o; new_value = n } ∷ []

-- The paths that are compared, each with the label it is reported under: the section and the
-- property, or a property alone.
pub data Place : Type 0 where
  top : String → String → Place
  inside : String → String → String → Place

abbrev pub label_of : Place → String
label_of (top label k) = label
label_of (inside label k j) = label

abbrev pub at : Value → Place → Value
at s (top label k) = prop s k
at s (inside label k j) = prop (prop s k) j

-- the calls of `add` before those for the parameters
abbrev pub places : List Place
places =
    top "replicas" "replicas"
    ∷ inside "postgres.version" "postgres" "version"
    ∷ inside "postgres.variant" "postgres" "variant"
    ∷ inside "postgres.registry" "postgres" "registry"
    ∷ inside "storage.size" "storage" "size"
    ∷ inside "storage.storage_class" "storage" "storage_class"
    ∷ inside "wal_storage.size" "wal_storage" "size"
    ∷ inside "wal_storage.storage_class" "wal_storage" "storage_class"
    ∷ inside "resources.cpu_request" "resources" "cpu_request"
    ∷ inside "resources.cpu_limit" "resources" "cpu_limit"
    ∷ inside "resources.memory_request" "resources" "memory_request"
    ∷ inside "resources.memory_limit" "resources" "memory_limit"
    ∷ inside "failover.enabled" "sentinel" "enabled"
    ∷ inside "failover.health_check_interval_seconds" "sentinel" "health_check_interval_seconds"
    ∷ []

unfoldable pub place_changes : List Place → Value → Value → List Change
unfolding add prop
place_changes [] old new = []
place_changes (p ∷ ps) old new = add (label_of p) (at old p) (at new p) ++ place_changes ps old new

-- the values that are not yet in the list, at its end
unfoldable pub add_keys : List String → Object → List String
add_keys ks [] = ks
add_keys ks ((k, v) ∷ o) = add_keys (if any (λ j. j == k) ks then ks else ks ++ k ∷ []) o

-- `allKeys`
unfoldable pub all_keys : Value → Value → List String
unfolding add_keys entries prop
all_keys old new =
    add_keys (add_keys [] (entries (prop old "pg_params"))) (entries (prop new "pg_params"))

unfoldable pub param_changes : List String → Value → Value → List Change
unfolding add prop
param_changes [] old new = []
param_changes (k ∷ ks) old new =
    add ("pg_params." ⧺ k) (prop (prop old "pg_params") k) (prop (prop new "pg_params") k)
    ++ param_changes ks old new

-- `rules.join('\n')`
unfoldable pub join_lines : List Value → String
join_lines [] = ""
join_lines (v ∷ []) = text_or_blank v
join_lines (v ∷ w ∷ vs) = text_or_blank v ⧺ ("\n" ⧺ join_lines (w ∷ vs))

-- the comparison of the rules
unfoldable pub rule_changes : Value → Value → List Change
unfolding prop join_lines
rule_changes old new =
    let olds = list_of (prop old "hba_rules") in
    let news = list_of (prop new "hba_rules") in
    if join_lines olds == join_lines news
    then []
    else record {
      path = "hba_rules";
      old_value = show (length olds) ⧺ " rule(s)";
      new_value = show (length news) ⧺ " rule(s)";
    }
      ∷ []

-- `computeSpecChanges`
unfoldable pub compute_spec_changes : Value → Value → List Change
compute_spec_changes old new =
    if truthy old
    then place_changes places old new
      ++ param_changes (all_keys old new) old new
      ++ rule_changes old new
    else []

-- ===== src/Profiles/Spec.antt =====
-- The spec of a profile in dashboard/src/pages/Profiles.jsx: the one a new profile starts with, and
-- the one that the form makes of a stored profile.
pub mod Laws
use pg_swarm.Base.{
  String, Bool, true, false, not, List, [], ◌∷◌, map, if◌then◌else◌, ◌&&◌, ◌||◌, all,
}
use pg_swarm.Js.{
  Value, undefined, null, bool, num, str, obj, arr, nil, cons, Object, get, set, or_else, truthy,
  assign,
}
use pg_swarm.Js.Props.{fields, items, entries, prop, put, spread_onto, is_object, of_items}
use pg_swarm.Profiles.Catalog.{default_pg_params}

-- `DEFAULT_HBA_RULES`
abbrev pub default_hba_rules : List Value
default_hba_rules =
    str "local   all   all                 trust"
    ∷ str "host    all   all   127.0.0.1/32  scram-sha-256"
    ∷ str "host    all   all   ::1/128       scram-sha-256"
    ∷ str "host    all   all   0.0.0.0/0     scram-sha-256"
    ∷ []

-- an object literal
abbrev pub object : Object → Value
object o = obj (fields o)

-- `emptySpec()`
unfoldable pub empty_spec : Value
empty_spec = object (
    ("replicas", num 3)
    ∷ (
      "postgres",
      object (
          ("version", str "17")
          ∷ ("variant", str "alpine")
          ∷ ("registry", str "")
          ∷ ("image", str "")
          ∷ []),
    )
    ∷ ("storage", object (("size", str "10Gi") ∷ ("storage_class", str "") ∷ []))
    ∷ ("wal_storage", null)
    ∷ (
      "resources",
      object (
          ("cpu_request", str "250m")
          ∷ ("cpu_limit", str "1000m")
          ∷ ("memory_request", str "512Mi")
          ∷ ("memory_limit", str "1Gi")
          ∷ []),
    )
    ∷ ("pg_params", object default_pg_params)
    ∷ ("hba_rules", arr (items default_hba_rules))
    ∷ ("sentinel", object (("enabled", bool true) ∷ ("health_check_interval_seconds", num 5) ∷ []))
    ∷ ("backup", null)
    ∷ [])

-- The object `editing`; a property that it does not have is undefined.
pub record Editing : Type 0 where
  pub id : Value
  pub name : Value
  pub description : Value
  pub event_rule_set_id : Value
  pub spec : Value
  pub original_spec : Value
  pub is_new : Bool

-- `startCreate`
unfoldable pub start_create : Editing
unfolding empty_spec
start_create = record {
  id = undefined;
  name = str "";
  description = str "";
  event_rule_set_id = undefined;
  spec = empty_spec;
  original_spec = undefined;
  is_new = true;
}

-- `hba_rules?.length` is a positive number: that of a text, an array or a property
has_length : Value → Bool
unfolding prop
has_length (str s) = truthy (str s)
has_length (arr (cons v xs)) = true
has_length (obj fs) = truthy (prop (obj fs) "length")
has_length _ = false

-- the spec `merged` of `startEdit`; `spec` is what `parseSpec` makes of the profile's config
unfoldable pub merged_spec : Value → Value
unfolding empty_spec prop put spread_onto has_length
merged_spec spec =
    let pg_params = spread_onto (object default_pg_params) (prop spec "pg_params") in
    let stored = prop spec "hba_rules" in
    let hba_rules = if has_length stored then stored else arr (items default_hba_rules) in
    let backup = or_else (prop spec "backup") null in
    put (put (put (spread_onto empty_spec spec) "pg_params" pg_params) "hba_rules" hba_rules)
      "backup" backup

-- `startEdit`; the copy by way of JSON is the same value
unfoldable pub start_edit : Value → Object → Editing
unfolding merged_spec
start_edit spec profile =
    let merged = merged_spec spec in
    record {
      id = get profile "id";
      name = get profile "name";
      description = get profile "description";
      event_rule_set_id = or_else (get profile "event_rule_set_id") null;
      spec = merged;
      original_spec = merged;
      is_new = false;
    }

abbrev pub is_text : Value → Bool
is_text (str s) = true
is_text _ = false

abbrev pub is_text_array : Value → Bool
is_text_array (arr xs) = all is_text (of_items xs)
is_text_array _ = false

abbrev is_null : Value → Bool
is_null undefined = true
is_null null = true
is_null _ = false

-- No backup, or one with the sections that its form reads without `?.`.
unfoldable pub has_sections : Value → Bool
has_sections b =
    is_object b
    && is_object (prop b "physical")
    && is_object (prop b "logical")
    && is_object (prop b "retention")

unfoldable pub is_backup : Value → Bool
unfolding has_sections
is_backup b = is_null b || has_sections b

-- A section that the form reads only if it is there.
abbrev pub is_section : Value → Bool
is_section v = is_object v || not (truthy v)

-- The sections that the form reads without `?.` are objects, those that it tests for are objects or
-- missing, and the rules are texts.
unfoldable pub is_spec : Value → Bool
is_spec s =
    is_object (prop s "postgres")
    && is_object (prop s "storage")
    && is_object (prop s "resources")
    && is_object (prop s "pg_params")
    && is_text_array (prop s "hba_rules")
    && is_backup (prop s "backup")
    && is_section (prop s "wal_storage")
    && is_section (prop s "sentinel")

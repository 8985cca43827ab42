-- ===== src/Js/Json.antt =====
-- What of a value comes through `JSON.stringify` and `JSON.parse`: the request bodies that
-- dashboard/src/api.js sends and mock/plugin.js reads. A property that is undefined is dropped, and
-- undefined in an array becomes null.
use pg_swarm.Base.{
  String, ◌≡◌, refl, Bool, true, false, not, [], ◌∷◌, ◌==◌, if◌then◌else◌, Bool-cases, inl, inr,
  arith, eq_iff,
}
use pg_swarm.Js.{
  Value, undefined, null, bool, num, str, obj, arr, Fields, end, field, Items, nil, cons, Object,
  get, has,
}
use pg_swarm.Js.Laws.{HasDistinctKeys}

-- `v === undefined`
abbrev pub is_undefined : Value → Bool
is_undefined undefined = true
is_undefined _ = false

abbrev keep_field : String → Value → Value → Fields → Fields
keep_field k undefined w fs = fs
keep_field k _ w fs = field k w fs

unfoldable mutual
  -- A value that stands in an array, or a property that is not undefined.
  pub json_value : Value → Value
  json_value undefined = null
  json_value null = null
  json_value (bool b) = bool b
  json_value (num n) = num n
  json_value (str s) = str s
  json_value (obj fs) = obj (json_fields fs)
  json_value (arr vs) = arr (json_items vs)

  json_fields : Fields → Fields
  json_fields end = end
  json_fields (field k v fs) = keep_field k v (json_value v) (json_fields fs)

  json_items : Items → Items
  json_items nil = nil
  json_items (cons v vs) = cons (json_value v) (json_items vs)

-- `JSON.parse(JSON.stringify(o))`
unfoldable pub json_object : Object → Object
unfolding json_value
json_object [] = []
json_object ((k, v) ∷ o) =
    let rest = json_object o in if is_undefined v then rest else (k, json_value v) ∷ rest

has-json_object_absent : (o : Object) (k : String) → has o k ≡ false → has (json_object o) k ≡ false
unfolding has json_object
has-json_object_absent [] k h = refl
has-json_object_absent ((j, v) ∷ o) k h = ground (arith, has-json_object_absent o k)

pub json_object-HasDistinctKeys : (o : Object) → HasDistinctKeys o → HasDistinctKeys (json_object o)
unfolding json_object
json_object-HasDistinctKeys [] h = tt
json_object-HasDistinctKeys ((k, v) ∷ o) h = elim (Bool-cases (is_undefined v)) [
  | inl gone ↦ rw gone (json_object-HasDistinctKeys o h.1)
  | inr kept ↦ rw kept (has-json_object_absent o k h.0, json_object-HasDistinctKeys o h.1)
]

get_absent : (o : Object) (k : String) → has o k ≡ false → get o k ≡ undefined
unfolding has get
get_absent [] k h = refl
get_absent ((j, v) ∷ o) k h = ground (arith, get_absent o k)

-- Exactly the properties that are not undefined are kept.
pub has-json_object :
    (o : Object) (k : String)
    → HasDistinctKeys o
    → has (json_object o) k ≡ not (is_undefined (get o k))
unfolding has json_object get
has-json_object [] k d = refl
has-json_object ((j, v) ∷ o) k d = elim (Bool-cases (j == k)) [
  | inl same ↦ elim (Bool-cases (is_undefined v)) [
    | inl gone ↦ rw (same, gone, ← (eq_iff j k).0 same) (has-json_object_absent o j d.0)
    | inr kept ↦ rw (same, kept) (rw same refl)
  ]
  | inr other ↦ elim (Bool-cases (is_undefined v)) [
    | inl gone ↦ rw (other, gone) (has-json_object o k d.1)
    | inr kept ↦ rw (other, kept) (rw other (has-json_object o k d.1))
  ]
]

pub get-json_object :
    (o : Object) (k : String)
    → is_undefined (get o k) ≡ false
    → HasDistinctKeys o
    → get (json_object o) k ≡ json_value (get o k)
unfolding has json_object get
get-json_object [] k h d = ground arith
get-json_object ((j, v) ∷ o) k h d = elim (Bool-cases (j == k)) [
  | inl same ↦ let kept = (rw same at h) in rw (same, kept) (rw same refl)
  | inr other ↦ elim (Bool-cases (is_undefined v)) [
    | inl gone ↦ rw (other, gone) (get-json_object o k (rw other at h) d.1)
    | inr kept ↦ rw (other, kept) (rw other (get-json_object o k (rw other at h) d.1))
  ]
]

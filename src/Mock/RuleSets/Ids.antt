-- ===== src/Mock/RuleSets/Ids.antt =====
-- The lists of handler ids of the rule sets: no id stands twice in a list, whatever is requested.
use pg_swarm.Base.{
  String, ◌≡◌, refl, sym, Bool, false, not, Option, none, some, List, [], ◌∷◌, ◌++◌, arith, ◌==◌,
  eq_iff, if◌then◌else◌, filter, any-append, Bool-cases, inl, inr, eq_comm,
}
use pg_swarm.Js.{Value, undefined, null, bool, num, str, arr, obj, Items, Fields, is_str, strict_eq}
use pg_swarm.Mock.RuleSets.{
  IdMap, lookup_ids, put_ids, delete_ids, includes, ids_or_empty, add_id, without_value, remove_at,
  remove_id,
}

strict_eq-arr : (v : Value) (xs : Items) → strict_eq v (arr xs) ≡ false
unfolding strict_eq
strict_eq-arr undefined xs = refl
strict_eq-arr _ xs = refl

strict_eq-obj : (v : Value) (fs : Fields) → strict_eq v (obj fs) ≡ false
unfolding strict_eq
strict_eq-obj undefined fs = refl
strict_eq-obj _ fs = refl

pub strict_eq_comm : (v w : Value) → strict_eq v w ≡ strict_eq w v
unfolding strict_eq
strict_eq_comm (str s) (str t) = eq_comm s t
strict_eq_comm (num n) (num m) = ground arith
strict_eq_comm (bool a) (bool b) = ground arith
strict_eq_comm (arr xs) w = sym (strict_eq-arr w xs)
strict_eq_comm (obj fs) w = sym (strict_eq-obj w fs)
strict_eq_comm undefined undefined = refl
strict_eq_comm null null = refl
strict_eq_comm _ _ = refl

-- No value stands twice, as `===` compares them.
abbrev pub IsDistinct : List Value → Type 0
IsDistinct [] = Unit
IsDistinct (v ∷ vs) = (includes vs v ≡ false) × IsDistinct vs

-- Every list of the map is distinct.
abbrev pub AllDistinct : IdMap → Type 0
AllDistinct [] = Unit
AllDistinct ((k, ids) ∷ m) = IsDistinct ids × AllDistinct m

includes-append :
    (vs : List Value) (v w : Value)
    → includes vs w ≡ false
    → strict_eq v w ≡ false
    → includes (vs ++ v ∷ []) w ≡ false
unfolding includes
includes-append vs v w h k = ground (arith, any-append (λ u. strict_eq u w) vs (v ∷ []))

IsDistinct-append :
    (vs : List Value) (v : Value)
    → IsDistinct vs
    → includes vs v ≡ false
    → IsDistinct (vs ++ v ∷ [])
unfolding includes
IsDistinct-append [] v d h = ground arith
IsDistinct-append (w ∷ vs) v d h = (
  includes-append vs v w d.0 (ground (arith, strict_eq_comm v w)),
  IsDistinct-append vs v d.1 (ground arith),
)

includes-filter :
    (p : Value → Bool) (vs : List Value) (v : Value)
    → includes vs v ≡ false
    → includes (filter p vs) v ≡ false
unfolding includes
includes-filter p [] v h = h
includes-filter p (w ∷ vs) v h = ground (arith, includes-filter p vs v)

IsDistinct-filter : (p : Value → Bool) (vs : List Value) → IsDistinct vs → IsDistinct (filter p vs)
IsDistinct-filter p [] d = tt
IsDistinct-filter p (v ∷ vs) d = elim (Bool-cases (p v)) [
  | inl kept ↦ rw kept (includes-filter p vs v d.0, IsDistinct-filter p vs d.1)
  | inr dropped ↦ rw dropped (IsDistinct-filter p vs d.1)
]

pub put_ids-AllDistinct :
    (k : String) (ids : List Value) (m : IdMap)
    → IsDistinct ids
    → AllDistinct m
    → AllDistinct (put_ids k ids m)
unfolding put_ids
put_ids-AllDistinct k ids [] d h = (d, tt)
put_ids-AllDistinct k ids ((j, old) ∷ m) d h = elim (Bool-cases (j == k)) [
  | inl same ↦ rw same (d, h.1)
  | inr other ↦ rw other (h.0, put_ids-AllDistinct k ids m d h.1)
]

pub delete_ids-AllDistinct : (k : String) (m : IdMap) → AllDistinct m → AllDistinct (delete_ids k m)
unfolding delete_ids
delete_ids-AllDistinct k [] h = tt
delete_ids-AllDistinct k ((j, ids) ∷ m) h = elim (Bool-cases (j == k)) [
  | inl same ↦ rw same (delete_ids-AllDistinct k m h.1)
  | inr other ↦ rw other (h.0, delete_ids-AllDistinct k m h.1)
]

lookup_ids-IsDistinct :
    (k : String) (m : IdMap) → AllDistinct m → IsDistinct (ids_or_empty (lookup_ids k m))
unfolding lookup_ids
lookup_ids-IsDistinct k [] h = tt
lookup_ids-IsDistinct k ((j, ids) ∷ m) h = elim (Bool-cases (j == k)) [
  | inl same ↦ rw same h.0
  | inr other ↦ rw other (lookup_ids-IsDistinct k m h.1)
]

pub add_id-AllDistinct :
    (k : String) (v : Value) (m : IdMap) → AllDistinct m → AllDistinct (add_id k v m)
unfolding add_id
add_id-AllDistinct k v m h =
    let ids = ids_or_empty (lookup_ids k m) in
    let d = lookup_ids-IsDistinct k m h in
    elim (Bool-cases (includes ids v)) [
      | inl there ↦ rw there (put_ids-AllDistinct k ids m d h)
      | inr fresh ↦
          rw fresh (put_ids-AllDistinct k (ids ++ v ∷ []) m (IsDistinct-append ids v d fresh) h)
    ]

pub remove_id-AllDistinct :
    (k hid : String) (m : IdMap) → AllDistinct m → AllDistinct (remove_id k hid m)
unfolding remove_id
remove_id-AllDistinct k hid m h = go (lookup_ids k m) (lookup_ids-IsDistinct k m h)
  where
    go :
        (found : Option (List Value))
        → IsDistinct (ids_or_empty found)
        → AllDistinct (remove_at found k hid m)
    go none d = h
    go (some ids) d =
        put_ids-AllDistinct k (without_value hid ids) m
          (IsDistinct-filter (λ v. not (is_str v hid)) ids d) h

-- Reading the map back after a write and after a removal.
pub lookup_ids-put_ids :
    (k j : String) (ids : List Value) (m : IdMap)
    → lookup_ids j (put_ids k ids m) ≡ (if k == j then some ids else lookup_ids j m)
unfolding lookup_ids put_ids
lookup_ids-put_ids k j ids [] = refl
lookup_ids-put_ids k j ids ((i, old) ∷ m) =
    ground (arith, eq_iff k j, eq_iff i k, eq_iff i j, lookup_ids-put_ids k j ids m)

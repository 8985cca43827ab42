-- ===== src/Js/Props.antt =====
-- Reads `v?.k`, spreads `{ ...v, k: w }`, `delete o.k` and `Object.entries` for values of any kind.
use pg_swarm.Base.{
  eq_refl, ℕ, suc, String, ◌≡◌, refl, Bool, true, false, List, [], ◌∷◌, filter, ◌==◌, eq_iff, not,
  if◌then◌else◌, ◌&&◌, Bool-cases, inl, inr,
}
use pg_swarm.Js.{
  Value, str, obj, arr, Items, nil, cons, Fields, end, field, Object, get, set, assign,
}
use pg_swarm.Js.Laws.{get-set}
use pg_swarm.Js.Text.{show}

-- An object inside another value.
abbrev pub fields : Object → Fields
fields [] = end
fields ((k, v) ∷ o) = field k v (fields o)

-- An array inside another value.
abbrev pub items : List Value → Items
items [] = nil
items (v ∷ vs) = cons v (items vs)

abbrev pub of_fields : Fields → Object
of_fields end = []
of_fields (field k v fs) = (k, v) ∷ of_fields fs

abbrev pub of_items : Items → List Value
of_items nil = []
of_items (cons v xs) = v ∷ of_items xs

numbered : ℕ → List Value → Object
numbered i [] = []
numbered i (v ∷ vs) = (show i, v) ∷ numbered (suc i) vs

characters : String → List Value
characters String.[] = []
characters (String.◌∷◌ c s) = str (String.◌∷◌ c "") ∷ characters s

-- the own properties that a spread of `v` copies
unfoldable pub entries : Value → Object
unfolding numbered characters
entries (obj fs) = of_fields fs
entries (arr xs) = numbered 0 (of_items xs)
entries (str s) = numbered 0 (characters s)
entries _ = []

-- `v?.k`, where `k` is no property that all values of v's type have
unfoldable pub prop : Value → String → Value
unfolding entries
prop v k = get (entries v) k

-- `{ ...v, k: w }`
unfoldable pub put : Value → String → Value → Value
unfolding entries
put v k w = obj (fields (set (entries v) k w))

-- `{ ...v, ...w }`
unfoldable pub spread_onto : Value → Value → Value
unfolding entries
spread_onto v w = obj (fields (assign (entries v) (entries w)))

-- `{ ...v }` after `delete` of its property k
unfoldable pub without : Value → String → Value
unfolding entries
without v k = obj (fields (filter (λ e. not (e.0 == k)) (entries v)))

-- `{ ...v, k: { ...v.k, j: w } }`
unfoldable pub put_in : Value → String → String → Value → Value
unfolding put prop
put_in v k j w = put v k (put (prop v k) j w)

abbrev pub is_object : Value → Bool
is_object (obj fs) = true
is_object _ = false

-- `v || []` for an array `v`, as a list
abbrev pub list_of : Value → List Value
list_of (arr xs) = of_items xs
list_of _ = []

of_fields-fields : (o : Object) → of_fields (fields o) ≡ o
of_fields-fields [] = refl
of_fields-fields ((k, v) ∷ o) = cc (of_fields-fields o)

pub prop-put :
    (v : Value) (k j : String) (w : Value) → prop (put v k w) j ≡ (if k == j then w else prop v j)
unfolding prop put entries
prop-put v k j w = rw (of_fields-fields (set (entries v) k w)) (get-set (entries v) k j w)

pub of_items-items : (vs : List Value) → of_items (items vs) ≡ vs
of_items-items [] = refl
of_items-items (v ∷ vs) = cc (of_items-items vs)

pub entries-without :
    (v : Value) (k : String) → entries (without v k) ≡ filter (λ e. not (e.0 == k)) (entries v)
unfolding without entries
entries-without v k = of_fields-fields (filter (λ e. not (e.0 == k)) (entries v))

-- A list that is written at a property is read there.
pub list_of-put :
    (s : Value) (k : String) (vs : List Value) → list_of (prop (put s k (arr (items vs))) k) ≡ vs
list_of-put s k vs = rw (prop-put s k k (arr (items vs)), eq_refl k) (of_items-items vs)

-- A write into a section shows at its own path only.
pub prop-put_in :
    (v : Value) (k j k2 j2 : String) (w : Value)
    → prop (prop (put_in v k j w) k2) j2
      ≡ (if (k == k2) && (j == j2) then w else prop (prop v k2) j2)
unfolding put_in
prop-put_in v k j k2 j2 w = elim (Bool-cases (k == k2)) [
  | inl same ↦
      rw
        (
          prop-put v k k2 (put (prop v k) j w),
          same,
          prop-put (prop v k) j j2 w,
          (eq_iff k k2).0 same,
        )
        refl
  | inr other ↦ rw (prop-put v k k2 (put (prop v k) j w), other) refl
]

-- ===== src/Mock/Collection/Laws.antt =====
-- What finding, patching and removing by id do to an array.
use pg_swarm.Base.{
  String, ◌≡◌, refl, ap, ◌∙◌, Bool, true, false, none, List, [], ◌∷◌, arith, ◌==◌, eq_iff,
  if◌then◌else◌, find, Bool-cases, inl, inr,
}
use pg_swarm.Js.{Value, str, Object, get, assign, is_str, has, undefined}
use pg_swarm.Js.Laws.{get-assign_absent}
use pg_swarm.Mock.Collection.{
  has_id, find_by_id, without_id, update_first, patch_by_id, patched_by_id,
}

-- Once removed, an id is found no more.
pub find_by_id-without_id_self :
    (id : String) (xs : List Object) → find_by_id id (without_id id xs) ≡ none
unfolding find_by_id without_id
find_by_id-without_id_self id [] = refl
find_by_id-without_id_self id (o ∷ xs) = ground (arith, find_by_id-without_id_self id xs)

pub is_str_unique :
    (v : Value) (s t : String) → is_str v s ≡ true → (s == t) ≡ false → is_str v t ≡ false
is_str_unique (str u) s t h n = ground (arith, eq_iff u s, eq_iff u t, eq_iff s t)
is_str_unique undefined s t h n = refl
is_str_unique _ s t h n = refl

-- Removing an id leaves the lookups of every other id as they were.
pub find_by_id-without_id_ne :
    (id j : String) (xs : List Object)
    → (id == j) ≡ false
    → find_by_id j (without_id id xs) ≡ find_by_id j xs
unfolding find_by_id without_id has_id
find_by_id-without_id_ne id j [] n = refl
find_by_id-without_id_ne id j (o ∷ xs) n =
    ground (arith, find_by_id-without_id_ne id j xs n, is_str_unique (get o "id") id j)

pub update_first_absent :
    (p : Object → Bool) (f : Object → Object) (xs : List Object)
    → find p xs ≡ none
    → update_first p f xs ≡ xs
unfolding update_first
update_first_absent p f [] h = refl
update_first_absent p f (o ∷ xs) h = ground (arith, update_first_absent p f xs)

pub find_by_id-without_id :
    (id j : String) (xs : List Object)
    → find_by_id j (without_id id xs) ≡ (if id == j then none else find_by_id j xs)
find_by_id-without_id id j xs = elim (Bool-cases (id == j)) [
  | inl same ↦ rw (same, ← (eq_iff id j).0 same) (find_by_id-without_id_self id xs)
  | inr other ↦ rw other (find_by_id-without_id_ne id j xs other)
]

-- A patch that does not write a property leaves it as it was.
pub get-patch_absent :
    (b stamp o : Object) (k : String)
    → has b k ≡ false
    → has stamp k ≡ false
    → get (assign (assign o b) stamp) k ≡ get o k
get-patch_absent b stamp o k h g =
    get-assign_absent stamp (assign o b) k g ∙ get-assign_absent b o k h

pub is_str_equal : (v : Value) (s t : String) → (s == t) ≡ true → is_str v s ≡ is_str v t
is_str_equal v s t e = ap (is_str v) ((eq_iff s t).0 e)

-- A patch that does not write the id changes what is found under that id, and nothing else.
pub find_by_id-patch_by_id :
    (id j : String) (b stamp : Object) (xs : List Object)
    → has b "id" ≡ false
    → has stamp "id" ≡ false
    → find_by_id j (patch_by_id id b stamp xs)
      ≡ (if id == j then patched_by_id id b stamp xs else find_by_id j xs)
unfolding find_by_id patch_by_id patched_by_id update_first has_id
find_by_id-patch_by_id id j b stamp [] h g = ground arith
find_by_id-patch_by_id id j b stamp (o ∷ xs) h g = ground (
  arith,
  find_by_id-patch_by_id id j b stamp xs h g,
  get-patch_absent b stamp o "id" h g,
  is_str_equal (get o "id") id j,
  is_str_unique (get o "id") id j,
)

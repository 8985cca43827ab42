-- ===== src/Js.antt =====
-- The JavaScript values that the dashboard handles: objects, arrays and scalars, with `===`,
-- truthiness, property reads, spread and `Object.assign`.
-- An object is its list of properties in insertion order. Numbers are the natural numbers.
pub mod Laws
pub mod Text
pub mod Props
pub mod Words
pub mod Json
use pg_swarm.Base.{ℕ, String, Bool, true, false, not, List, [], ◌∷◌, ◌==◌, eqb, if◌then◌else◌}

mutual
  pub data Value : Type 0 where
    undefined : Value
    null : Value
    bool : Bool → Value
    num : ℕ → Value
    str : String → Value
    obj : Fields → Value
    arr : Items → Value

  pub data Fields : Type 0 where
    end : Fields
    field : String → Value → Fields → Fields

  pub data Items : Type 0 where
    nil : Items
    cons : Value → Items → Items

abbrev pub Object : Type 0
Object = List (String × Value)

-- `o.k`
unfoldable pub get : Object → String → Value
get [] k = undefined
get ((j, v) ∷ o) k = if j == k then v else get o k

-- `o.k = v`: a present property keeps its place, a new one goes to the end
unfoldable pub set : Object → String → Value → Object
set [] k v = (k, v) ∷ []
set ((j, w) ∷ o) k v = if j == k then (j, v) ∷ o else (j, w) ∷ set o k v

-- `Object.assign(o, b)`, and `{ ...o, ...b }` where `o` is not shared
unfoldable pub assign : Object → Object → Object
unfolding set
assign o [] = o
assign o ((k, v) ∷ b) = assign (set o k v) b

-- `'k' in o`
unfoldable pub has : Object → String → Bool
has [] k = false
has ((j, v) ∷ o) k = if j == k then true else has o k

-- whether `v` counts as true in a test
abbrev pub truthy : Value → Bool
truthy undefined = false
truthy null = false
truthy (bool b) = b
truthy (num n) = not (eqb n 0)
truthy (str s) = not (s == "")
truthy _ = true

-- `v || d`
abbrev pub or_else : Value → Value → Value
or_else v d = if truthy v then v else d

-- `v === s` for a string `s`
abbrev pub is_str : Value → String → Bool
is_str (str t) s = t == s
is_str _ s = false

-- `v === w`. Two arrays or objects that come from different JSON texts are never the same one.
unfoldable pub strict_eq : Value → Value → Bool
strict_eq undefined undefined = true
strict_eq null null = true
strict_eq (bool a) (bool b) = if a then b else not b
strict_eq (num n) (num m) = eqb n m
strict_eq (str s) (str t) = s == t
strict_eq _ _ = false

-- ===== src/Mock/Collection.antt =====
-- The idioms that the handlers of mock/plugin.js repeat on an array of objects with ids.
pub mod Laws
use pg_swarm.Base.{
  ℕ, String, ◌≡◌, Bool, not, Option, none, some, List, [], ◌∷◌, ◌++◌, ◌==◌, if◌then◌else◌, find,
  filter,
}
use mathlib.Core.Option
use pg_swarm.Js.{Object, get, assign, is_str}

-- `x.id === id`
unfoldable pub has_id : String → Object → Bool
has_id id o = is_str (get o "id") id

-- `xs.find((x) => x.id === id)`
unfoldable pub find_by_id : String → List Object → Option Object
find_by_id id xs = find (has_id id) xs

-- `xs.filter((x) => x.id !== id)`
unfoldable pub without_id : String → List Object → List Object
without_id id xs = filter (λ o. not (has_id id o)) xs

-- a write through the reference that `find` or `findIndex` gives
unfoldable pub update_first : (Object → Bool) → (Object → Object) → List Object → List Object
update_first p f [] = []
update_first p f (o ∷ xs) = if p o then f o ∷ xs else o ∷ update_first p f xs

-- `Object.assign(xs[idx], b, stamp)` at the first object with the id
unfoldable pub patch_by_id : String → Object → Object → List Object → List Object
patch_by_id id b stamp xs = update_first (has_id id) (λ o. assign (assign o b) stamp) xs

-- `{ ...defaults, ...b }`
unfoldable pub spread : Object → Object → Object
spread defaults b = assign (assign [] defaults) b

-- The object that `patch_by_id` returns to the client.
unfoldable pub patched_by_id : String → Object → Object → List Object → Option Object
patched_by_id id b stamp xs = Option.map (λ o. assign (assign o b) stamp) (find_by_id id xs)

-- A write through a reference that `find` gave, `if (x) { f(x); }`, and the object after it.
unfoldable pub touch : String → (Object → Object) → List Object → List Object
touch id f xs = update_first (has_id id) f xs

unfoldable pub touched : String → (Object → Object) → List Object → Option Object
touched id f xs = Option.map f (find_by_id id xs)

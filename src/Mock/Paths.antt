-- ===== src/Mock/Paths.antt =====
-- Request paths: `path.split('/')`, the prefix of the API, and the regular expressions that the
-- routes test, `^/a/[^/]+/b$`, as patterns over the parts.
pub mod Laws
use Prim.Native.Nat.{zero}
use Prim.Native.Char.{Char, code}
use Prim.Native.String
use Prim.Native.String.{len, slice}
use text.Mathlib.Text.{starts_with}
use pg_swarm.Base.{
  ℕ, suc, String, Bool, true, false, not, Option, none, some, List, [], ◌∷◌, ◌++◌, ◌==◌, eqb, ◌&&◌,
  if◌then◌else◌,
}

abbrev pub push : String → Char → String
push s c = String.◌++◌ s (String.◌∷◌ c String.[])

-- The parts of `s` between slashes, with `cur` in front of the first.
unfoldable pub split_from : String → String → List String
split_from cur String.[] = cur ∷ []
split_from cur (String.◌∷◌ c s) =
    let closed = split_from "" s in
    let longer = split_from (push cur c) s in if eqb (code c) b'/' then cur ∷ closed else longer

-- `path.split('/')`
unfoldable pub split_slash : String → List String
unfolding split_from
split_slash path = split_from "" path

abbrev pub api_prefix : String
api_prefix = "/api/v1"

-- `req.url.startsWith('/api/v1')`, for a `req.url` whose path `new URL` leaves as it is, and then
-- `pathname.replace('/api/v1', '')`
unfoldable pub strip_api : String → Option String
strip_api p = if starts_with p api_prefix then some (slice p 7 (len p)) else none

-- a literal part, or `[^/]+`
pub data Part : Type 0 where
  lit : String → Part
  any_id : Part

abbrev pub Pattern : Type 0
Pattern = List Part

abbrev pub fits : Part → String → Bool
fits (lit text) part = text == part
fits any_id part = not (part == "")

unfoldable pub matches : Pattern → List String → Bool
matches [] [] = true
matches (p ∷ ps) (part ∷ parts) = fits p part && matches ps parts
matches _ _ = false

-- `parts[i]`, with the empty text for undefined
abbrev pub part_at : List String → ℕ → String
part_at [] i = ""
part_at (part ∷ parts) zero = part
part_at (part ∷ parts) (suc i) = part_at parts i

-- Whether some path could fit both patterns. A literal that is empty fits no `[^/]+`.
unfoldable pub may_overlap : Pattern → Pattern → Bool
may_overlap [] [] = true
may_overlap (lit a ∷ ps) (lit b ∷ qs) = a == b && may_overlap ps qs
may_overlap (lit a ∷ ps) (any_id ∷ qs) = may_overlap ps qs
may_overlap (any_id ∷ ps) (_ ∷ qs) = may_overlap ps qs
may_overlap _ _ = false

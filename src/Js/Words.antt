-- ===== src/Js/Words.antt =====
-- Texts: `trim`, `split`, `includes`, `startsWith`, `padStart`, `parseInt` and the change of case.
pub mod Laws
use Prim.Native.Char.{Char, code}
use Prim.Native.String
use pg_swarm.Base.{
  ℕ, String, Bool, true, false, not, List, [], ◌∷◌, eqb, leb, ◌||◌, ◌&&◌, if◌then◌else◌, ◌+◌, ◌*◌,
  ◌-◌, Option, none, some,
}

-- `\s`
unfoldable pub is_space : Char → Bool
is_space c =
    let n = code c in
    (leb 9 n && leb n 13)
    || (eqb n 32 || eqb n 160 || eqb n 5760)
    || (leb 8192 n && leb n 8202)
    || (eqb n 8232 || eqb n 8233 || eqb n 8239 || eqb n 8287 || eqb n 12288 || eqb n 65279)

abbrev pub is_empty : String → Bool
is_empty String.[] = true
is_empty (String.◌∷◌ c s) = false

unfoldable pub trim_start : String → String
trim_start String.[] = ""
trim_start (String.◌∷◌ c s) = if is_space c then trim_start s else String.◌∷◌ c s

unfoldable pub trim_end : String → String
trim_end String.[] = ""
trim_end (String.◌∷◌ c s) =
    let rest = trim_end s in if is_space c && is_empty rest then "" else String.◌∷◌ c rest

-- `s.trim()`
unfoldable pub trim : String → String
unfolding trim_start trim_end
trim s = trim_end (trim_start s)

unfoldable pub starts_word : String → Bool
starts_word String.[] = false
starts_word (String.◌∷◌ c s) = not (is_space c)

abbrev pub onto_first : Char → List String → List String
onto_first c [] = String.◌∷◌ c "" ∷ []
onto_first c (w ∷ ws) = String.◌∷◌ c w ∷ ws

-- the maximal runs of characters that are no white space
unfoldable pub runs : String → List String
unfolding starts_word
runs String.[] = []
runs (String.◌∷◌ c s) =
    let rest = runs s in
    if is_space c then rest else if starts_word s then onto_first c rest else String.◌∷◌ c "" ∷ rest

abbrev or_blank : List String → List String
or_blank [] = "" ∷ []
or_blank ws = ws

-- `s.trim().split(/\s+/)`; a blank text splits into one empty part
unfoldable pub words : String → List String
unfolding runs
words s = or_blank (runs s)

-- `s.split(c)` for one character
unfoldable pub split_char : ℕ → String → List String
split_char k String.[] = "" ∷ []
split_char k (String.◌∷◌ c s) =
    let rest = split_char k s in if eqb (code c) k then "" ∷ rest else onto_first c rest

unfoldable pub starts_with : String → String → Bool
starts_with s String.[] = true
starts_with String.[] (String.◌∷◌ d t) = false
starts_with (String.◌∷◌ c s) (String.◌∷◌ d t) = eqb (code c) (code d) && starts_with s t

-- `s.includes(t)`
unfoldable pub includes : String → String → Bool
unfolding starts_with
includes String.[] t = is_empty t
includes (String.◌∷◌ c s) t = starts_with (String.◌∷◌ c s) t || includes s t

unfoldable pub is_digit : Char → Bool
is_digit c = leb b'0' (code c) && leb (code c) b'9'

-- the number that the leading digits continue
unfoldable pub number_from : ℕ → String → ℕ
unfolding is_digit
number_from n String.[] = n
number_from n (String.◌∷◌ c s) =
    let more = number_from (n * 10 + (code c - b'0')) s in if is_digit c then more else n

abbrev starts_digit : String → Bool
starts_digit String.[] = false
starts_digit (String.◌∷◌ c s) = is_digit c

abbrev after_plus : String → String
after_plus String.[] = ""
after_plus (String.◌∷◌ c s) = if eqb (code c) b'+' then s else String.◌∷◌ c s

-- `parseInt(s)`, none for NaN; the texts of negative numbers are not modelled
unfoldable pub parse_int : String → Option ℕ
unfolding number_from is_digit trim_start
parse_int s =
    let t = after_plus (trim_start s) in if starts_digit t then some (number_from 0 t) else none

-- `parseInt(s) || d`
abbrev pub int_or : String → ℕ → ℕ
int_or s d = elim (parse_int s) [ none ↦ d | some n ↦ if eqb n 0 then d else n ]

-- the character of the second text at the place that `x` has in the first, or `x`
swap_char : String → String → Char → Char
swap_char (String.◌∷◌ c s) (String.◌∷◌ d t) x =
    let later = swap_char s t x in if eqb (code x) (code c) then d else later
swap_char _ _ x = x

abbrev small_letters : String
small_letters = "abcdefghijklmnopqrstuvwxyz"

abbrev large_letters : String
large_letters = "ABCDEFGHIJKLMNOPQRSTUVWXYZ"

-- `s.toLowerCase()`, for ASCII letters
unfoldable pub lower_case : String → String
unfolding swap_char
lower_case String.[] = ""
lower_case (String.◌∷◌ c s) = String.◌∷◌ (swap_char large_letters small_letters c) (lower_case s)

-- `s.toUpperCase()`, for ASCII letters
unfoldable pub upper_case : String → String
unfolding swap_char
upper_case String.[] = ""
upper_case (String.◌∷◌ c s) = String.◌∷◌ (swap_char small_letters large_letters c) (upper_case s)

-- `s.charAt(0).toUpperCase() + s.slice(1)`
unfoldable pub upper_first : String → String
unfolding swap_char
upper_first String.[] = ""
upper_first (String.◌∷◌ c s) = String.◌∷◌ (swap_char small_letters large_letters c) s

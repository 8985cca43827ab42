-- ===== src/Api/Paths.antt =====
-- Where the server finds the parts of the paths that the client puts together.
use text.Mathlib.TextLemmas.{append_assoc, nil-append}
use pg_swarm.Base.{
  String, ◌≡◌, refl, sym, ap, ◌∙◌, Bool, true, false, not, Option, List, [], ◌∷◌, arith, ◌==◌, ◌&&◌,
  ◌||◌, eqb, leb, ℕ,
}
use pg_swarm.Js.Text.{◌⧺◌}
use Prim.Native.Char.{code}
use pg_swarm.Mock.Paths.{split_slash, split_from, part_at}
use pg_swarm.Mock.Paths.Laws.{NoSlash, split_from-part, split_from_last}
use pg_swarm.Mock.Routes.{Route, route_table, first_route}
use pg_swarm.Api.{Sent}

unfoldable pub no_slash : String → Bool
no_slash String.[] = true
no_slash (String.◌∷◌ c s) = not (eqb (code c) b'/') && no_slash s

no_slash-NoSlash : (s : String) → no_slash s ≡ true → NoSlash s
unfolding no_slash
no_slash-NoSlash String.[] h = tt
no_slash-NoSlash (String.◌∷◌ c s) h = (ground arith, no_slash-NoSlash s (ground arith))

-- a letter, a digit, '-' or '_' of ASCII
abbrev is_word_code : ℕ → Bool
is_word_code n =
    (leb 48 n && leb n 57)
    || (leb 65 n && leb n 90)
    || (leb 97 n && leb n 122)
    || eqb n 45
    || eqb n 95

unfoldable pub is_plain : String → Bool
is_plain String.[] = true
is_plain (String.◌∷◌ c s) = is_word_code (code c) && is_plain s

-- An id that is one part of a path and that reaches the server as it is: it is not empty and made
-- of letters, digits, '-' and '_' of ASCII. Of any other id `fetch` and `URL` may change the
-- characters, cut the path short at a '?' or '#', or resolve a part of dots.
abbrev pub IsId : String → Type 0
IsId id = (is_plain id ≡ true) × ((id == "") ≡ false)

abbrev Fixed : String → Type 0
Fixed a = no_slash a ≡ true

pub is_plain-Fixed : (s : String) → is_plain s ≡ true → Fixed s
unfolding is_plain no_slash
is_plain-Fixed String.[] h = refl
is_plain-Fixed (String.◌∷◌ c s) h = ground (arith, is_plain-Fixed s (ground arith))

abbrev front : String → String → String
front a rest = ("/" ⧺ a ⧺ "/") ⧺ rest

split-front : (a rest : String) → Fixed a → split_slash (front a rest) ≡ "" ∷ a ∷ split_from "" rest
unfolding split_slash
split-front a rest h =
    ap (split_from "") (
      append_assoc "/" (a ⧺ "/") rest
      ∙ ap (λ u. "/" ⧺ u) (append_assoc a "/" rest)
      ∙ sym (nil-append _))
    ∙ split_from-part "" "" (a ⧺ "/" ⧺ rest) tt
    ∙ ap (λ u. "" ∷ u)
        (split_from-part "" a rest (no_slash-NoSlash a h)
          ∙ ap (λ u. u ∷ split_from "" rest) (nil-append a))

last_part : (a : String) → Fixed a → split_from "" a ≡ a ∷ []
last_part a h = split_from_last "" a (no_slash-NoSlash a h) ∙ ap (λ u. u ∷ []) (nil-append a)

next_part : (a rest : String) → Fixed a → split_from "" (a ⧺ "/" ⧺ rest) ≡ a ∷ split_from "" rest
next_part a rest h =
    split_from-part "" a rest (no_slash-NoSlash a h)
    ∙ ap (λ u. u ∷ split_from "" rest) (nil-append a)

-- '/a/' + id
pub split_id : (a id : String) → Fixed a → Fixed id → split_slash (front a id) ≡ "" ∷ a ∷ id ∷ []
split_id a id ha hid = split-front a id ha ∙ ap (λ u. "" ∷ a ∷ u) (last_part id hid)

-- '/a/' + id + '/b'
pub split_verb :
    (a id b : String)
    → Fixed a
    → Fixed id
    → Fixed b
    → split_slash (front a (id ⧺ "/" ⧺ b)) ≡ "" ∷ a ∷ id ∷ b ∷ []
split_verb a id b ha hid hb =
    split-front a (id ⧺ "/" ⧺ b) ha
    ∙ ap (λ u. "" ∷ a ∷ u) (next_part id b hid ∙ ap (λ u. id ∷ u) (last_part b hb))

-- '/a/' + id + '/b/c'
pub split_verb_verb :
    (a id b c : String)
    → Fixed a
    → Fixed id
    → Fixed b
    → Fixed c
    → split_slash (front a (id ⧺ "/" ⧺ (b ⧺ "/" ⧺ c))) ≡ "" ∷ a ∷ id ∷ b ∷ c ∷ []
split_verb_verb a id b c ha hid hb hc =
    split-front a (id ⧺ "/" ⧺ (b ⧺ "/" ⧺ c)) ha
    ∙ ap (λ u. "" ∷ a ∷ u)
        (next_part id (b ⧺ "/" ⧺ c) hid
          ∙ ap (λ u. id ∷ u) (next_part b c hb ∙ ap (λ u. b ∷ u) (last_part c hc)))

-- '/a/' + id + '/b/' + hid
pub split_verb_id :
    (a id b hid : String)
    → Fixed a
    → Fixed id
    → Fixed b
    → Fixed hid
    → split_slash (front a (id ⧺ front b hid)) ≡ "" ∷ a ∷ id ∷ b ∷ hid ∷ []
split_verb_id a id b hid ha hi hb hh =
    ap (λ u. split_slash (front a (id ⧺ u)))
      (append_assoc "/" (b ⧺ "/") hid ∙ ap (λ u. "/" ⧺ u) (append_assoc b "/" hid))
    ∙ split_verb_verb a id b hid ha hi hb hh

-- The server takes the request to the route, with these ids.
pub record Located (q : Sent) (ids : String × String) (route : Option Route) : Type 0 where
  pub routed : first_route route_table q.method (split_slash q.path) ≡ route
  pub first_id : part_at (split_slash q.path) 2 ≡ ids.0
  pub second_id : part_at (split_slash q.path) 4 ≡ ids.1

pub locate :
    (q : Sent) (ids : String × String) (route : Option Route) (parts : List String)
    → split_slash q.path ≡ parts
    → first_route route_table q.method parts ≡ route
    → part_at parts 2 ≡ ids.0
    → part_at parts 4 ≡ ids.1
    → Located q ids route
locate q ids route parts e r i j = record { routed = rw e r; first_id = rw e i; second_id = rw e j }

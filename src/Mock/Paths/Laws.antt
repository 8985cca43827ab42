-- ===== src/Mock/Paths/Laws.antt =====
-- Splitting a path that is put together from parts, and patterns that exclude each other.
use Prim.Native.Char.{Char, code}
use Prim.Native.String
use Prim.Native.String.{len}
use text.Mathlib.TextLemmas.{nil-append, cons-append, append-nil, append_assoc}
use text.Mathlib.TextPositions.{starts_with-append, slice-append_right, len-append}
use pg_swarm.Base.{String, ◌≡◌, refl, ap, ◌∙◌, true, false, some, List, [], ◌∷◌, arith, eqb, eq_iff}
use pg_swarm.Mock.Paths.{
  push, split_from, api_prefix, strip_api, lit, any_id, Pattern, matches, may_overlap,
}

abbrev pub NoSlash : String → Type 0
NoSlash String.[] = Unit
NoSlash (String.◌∷◌ c s) = (eqb (code c) b'/' ≡ false) × NoSlash s

infixr 65 ◌⊕◌
abbrev ◌⊕◌ : String → String → String
a ⊕ b = String.◌++◌ a b

push-append : (cur : String) (c : Char) (t : String) → push cur c ⊕ t ≡ cur ⊕ String.◌∷◌ c t
push-append cur c t =
    append_assoc cur (String.◌∷◌ c String.[]) t
    ∙ ap (λ u. cur ⊕ u) (cons-append c String.[] t ∙ ap (λ u. String.◌∷◌ c u) (nil-append t))

-- A part without slashes goes whole in front of the next slash.
pub split_from-part :
    (cur a rest : String)
    → NoSlash a
    → split_from cur (a ⊕ "/" ⊕ rest) ≡ (cur ⊕ a) ∷ split_from "" rest
unfolding split_from
split_from-part cur String.[] rest h = rw (nil-append, append-nil, cons-append, nil-append) refl
split_from-part cur (String.◌∷◌ c a) rest (n, h) =
    rw (cons-append, n)
      (split_from-part (push cur c) a rest h
        ∙ ap (λ u. u ∷ split_from "" rest) (push-append cur c a))

-- So does a last part.
pub split_from_last : (cur a : String) → NoSlash a → split_from cur a ≡ (cur ⊕ a) ∷ []
unfolding split_from
split_from_last cur String.[] h = rw append-nil
split_from_last cur (String.◌∷◌ c a) (n, h) =
    rw n (split_from_last (push cur c) a h ∙ ap (λ u. u ∷ []) (push-append cur c a))

pub strip_api-append : (path : String) → strip_api (api_prefix ⊕ path) ≡ some path
unfolding strip_api
strip_api-append path =
    rw (starts_with-append, len-append) (ap some (slice-append_right api_prefix path))

-- Two patterns that exclude each other match no path in common.
pub matches_disjoint :
    (p q : Pattern) (parts : List String)
    → may_overlap p q ≡ false
    → matches p parts ≡ true
    → matches q parts ≡ false
unfolding matches may_overlap
matches_disjoint [] [] parts n h = cc
matches_disjoint [] (_ ∷ _) [] n h = refl
matches_disjoint (_ ∷ _) [] (_ ∷ _) n h = refl
matches_disjoint (lit a ∷ p) (lit b ∷ q) (part ∷ parts) n h =
    ground (arith, matches_disjoint p q parts, eq_iff a part, eq_iff b part, eq_iff a b)
matches_disjoint (lit a ∷ p) (any_id ∷ q) (part ∷ parts) n h =
    ground (arith, matches_disjoint p q parts n)
matches_disjoint (any_id ∷ p) (lit b ∷ q) (part ∷ parts) n h =
    ground (arith, matches_disjoint p q parts n)
matches_disjoint (any_id ∷ p) (any_id ∷ q) (part ∷ parts) n h =
    ground (arith, matches_disjoint p q parts n)
matches_disjoint _ _ _ n h = cc

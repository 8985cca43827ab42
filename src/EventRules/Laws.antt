-- ===== src/EventRules/Laws.antt =====
-- `groupByCategory` parts the rules by their categories.
use pg_swarm.Base.{
  ℕ, ◌+◌, suc, String, ◌≡◌, refl, false, List, [], ◌∷◌, ◌++◌, ◌==◌, if◌then◌else◌, filter, length,
  arith, eq_iff, Bool-cases, inl, inr, append_assoc, append-nil, sym, length-append,
}
use pg_swarm.Js.{Object}
use pg_swarm.EventRules.{Groups, category_of, add_to_group, group_onto, group_by_category}

-- the first group under a name
unfoldable pub rules_of : String → Groups → List Object
rules_of cat [] = []
rules_of cat ((c, rs) ∷ gs) = if c == cat then rs else rules_of cat gs

-- the number of rules in all groups
unfoldable pub total : Groups → ℕ
total [] = 0
total ((c, rs) ∷ gs) = length rs + total gs

rules_of-add_to_group :
    (cat c : String) (r : Object) (gs : Groups)
    → rules_of cat (add_to_group c r gs)
      ≡ (if c == cat then rules_of cat gs ++ r ∷ [] else rules_of cat gs)
unfolding rules_of add_to_group
rules_of-add_to_group cat c r [] = elim (Bool-cases (c == cat)) [
  | inl h ↦ rw h refl
  | inr h ↦ rw h refl
]
rules_of-add_to_group cat c r ((d, rs) ∷ gs) = elim (Bool-cases (d == c)) [
  | inl h ↦ elim (Bool-cases (c == cat)) [
    | inl k ↦ rw (h, k, (eq_iff d c).0 h, k) refl
    | inr k ↦ rw (h, k, (eq_iff d c).0 h, k) refl
  ]
  | inr h ↦ elim (Bool-cases (d == cat)) [
    | inl k ↦
        let e : (c == cat) ≡ false = ground (arith, eq_iff d c, eq_iff d cat, eq_iff c cat) in
        rw (h, k, e) refl
    | inr k ↦ rw (h, k) (rules_of-add_to_group cat c r gs)
  ]
]

total-add_to_group :
    (c : String) (r : Object) (gs : Groups) → total (add_to_group c r gs) ≡ suc (total gs)
unfolding total add_to_group
total-add_to_group c r [] = omega arith
total-add_to_group c r ((d, rs) ∷ gs) = elim (Bool-cases (d == c)) [
  | inl h ↦ rw h (omega (arith, length-append rs (r ∷ [])))
  | inr h ↦ rw h (omega (arith, total-add_to_group c r gs))
]

rules_of-group_onto :
    (cat : String) (gs : Groups) (rules : List Object)
    → rules_of cat (group_onto gs rules)
      ≡ rules_of cat gs ++ filter (λ r. category_of r == cat) rules
unfolding group_onto
rules_of-group_onto cat gs [] = sym (append-nil (rules_of cat gs))
rules_of-group_onto cat gs (r ∷ rs) = elim (Bool-cases (category_of r == cat)) [
  | inl h ↦
      rw
        (
          h,
          rules_of-group_onto cat (add_to_group (category_of r) r gs) rs,
          rules_of-add_to_group cat (category_of r) r gs,
          h,
        )
        (append_assoc (rules_of cat gs) (r ∷ []) (filter (λ q. category_of q == cat) rs))
  | inr h ↦
      rw
        (
          h,
          rules_of-group_onto cat (add_to_group (category_of r) r gs) rs,
          rules_of-add_to_group cat (category_of r) r gs,
          h,
        )
        refl
]

total-group_onto :
    (gs : Groups) (rules : List Object) → total (group_onto gs rules) ≡ total gs + length rules
unfolding group_onto
total-group_onto gs [] = omega arith
total-group_onto gs (r ∷ rs) = omega (
  arith,
  total-group_onto (add_to_group (category_of r) r gs) rs,
  total-add_to_group (category_of r) r gs,
)

-- The group of a category holds the rules of that category in their order, and nothing if there are
-- none, and the groups together hold as many rules as there are.
pub group_by_category_parts :
    (rules : List Object) (cat : String)
    → (rules_of cat (group_by_category rules) ≡ filter (λ r. category_of r == cat) rules)
      × (total (group_by_category rules) ≡ length rules)
unfolding group_by_category rules_of total
group_by_category_parts rules cat =
    (rules_of-group_onto cat [] rules, omega (arith, total-group_onto [] rules))

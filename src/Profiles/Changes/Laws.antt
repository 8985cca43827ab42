-- ===== src/Profiles/Changes/Laws.antt =====
-- What `computeSpecChanges` finds.
use pg_swarm.Base.{
  String, ◌≡◌, refl, ◌↔◌, Bool, true, false, List, [], ◌∷◌, ◌++◌, ◌==◌, ◌&&◌, ◌||◌, any, all, arith,
  if◌then◌else◌, Bool-cases, inl, inr, any-append, eq_iff, ap, sym, ◌∙◌,
}
use pg_swarm.Js.{Value, undefined, Object, get, has, truthy}
use pg_swarm.Js.Props.{prop, entries, list_of}
use pg_swarm.Js.Text.{◌⧺◌}
use pg_swarm.Profiles.Changes.{
  Change, Place, label_of, at, places, text_or_blank, add, place_changes, add_keys, all_keys,
  param_changes, join_lines, rule_changes, compute_spec_changes,
}

-- Two values with the same text, where undefined and null are blank.
abbrev pub same_text : Value → Value → Bool
same_text v w = text_or_blank v == text_or_blank w

known_key :
    (k j : String) (o : Object) (ks : List String)
    → any (λ i. i == j) ks ≡ true
    → (any (λ i. i == k) ks || has o k)
      ≡ (any (λ i. i == k) ks || (if j == k then true else has o k))
known_key k j o ks h = elim (Bool-cases (j == k)) [
  | inl e ↦ rw (e, ← (eq_iff j k).0 e, h) refl
  | inr e ↦ rw e refl
]

any-add_keys :
    (k : String) (o : Object) (ks : List String)
    → any (λ j. j == k) (add_keys ks o) ≡ (any (λ j. j == k) ks || has o k)
unfolding add_keys has
any-add_keys k [] ks = ground arith
any-add_keys k ((j, v) ∷ o) ks = elim (Bool-cases (any (λ i. i == j) ks)) [
  | inl old ↦ rw (old, any-add_keys k o ks) (known_key k j o ks old)
  | inr new ↦
      rw (new, any-add_keys k o (ks ++ j ∷ []), any-append (λ i. i == k) ks (j ∷ [])) (ground arith)
]

get_absent : (o : Object) (k : String) → has o k ≡ false → get o k ≡ undefined
unfolding get has
get_absent [] k h = refl
get_absent ((j, v) ∷ o) k h = ground (arith, get_absent o k)

abbrev is_none : List Change → Bool
is_none [] = true
is_none (c ∷ cs) = false

is_none-append : (cs ds : List Change) → is_none (cs ++ ds) ≡ (is_none cs && is_none ds)
is_none-append [] ds = refl
is_none-append (c ∷ cs) ds = refl

is_none-eq : (cs : List Change) → (cs ≡ []) ↔ (is_none cs ≡ true)
is_none-eq [] = ((λ _. refl), (λ _. refl))
is_none-eq (c ∷ cs) = ((λ e. ap is_none e), (λ e. ground arith))

is_none-add : (path : String) (v w : Value) → is_none (add path v w) ≡ same_text v w
unfolding add
is_none-add path v w = elim (Bool-cases (same_text v w)) [ inl h ↦ rw h refl | inr h ↦ rw h refl ]

is_none-place_changes :
    (ps : List Place) (old new : Value)
    → is_none (place_changes ps old new) ≡ all (λ p. same_text (at old p) (at new p)) ps
unfolding place_changes
is_none-place_changes [] old new = refl
is_none-place_changes (p ∷ ps) old new =
    rw
      (
        is_none-append (add (label_of p) (at old p) (at new p)) (place_changes ps old new),
        is_none-add (label_of p) (at old p) (at new p),
        is_none-place_changes ps old new,
      )
      refl

-- the values of a parameter have the same text
abbrev pub same_param : Value → Value → String → Bool
same_param old new k = same_text (prop (prop old "pg_params") k) (prop (prop new "pg_params") k)

is_none-param_changes :
    (ks : List String) (old new : Value)
    → is_none (param_changes ks old new) ≡ all (same_param old new) ks
unfolding param_changes
is_none-param_changes [] old new = refl
is_none-param_changes (k ∷ ks) old new =
    let v = prop (prop old "pg_params") k in
    let w = prop (prop new "pg_params") k in
    rw
      (
        is_none-append (add ("pg_params." ⧺ k) v w) (param_changes ks old new),
        is_none-add ("pg_params." ⧺ k) v w,
        is_none-param_changes ks old new,
      )
      refl

-- the texts of the rules are the same
abbrev pub same_rules : Value → Value → Bool
same_rules old new =
    join_lines (list_of (prop old "hba_rules")) == join_lines (list_of (prop new "hba_rules"))

is_none-rule_changes : (old new : Value) → is_none (rule_changes old new) ≡ same_rules old new
unfolding rule_changes
is_none-rule_changes old new = elim (Bool-cases (same_rules old new)) [
  | inl h ↦ rw h refl
  | inr h ↦ rw h refl
]

all_elem :
    (f : String → Bool) (k : String) (ks : List String)
    → all f ks ≡ true
    → any (λ j. j == k) ks ≡ true
    → f k ≡ true
all_elem f k [] h e = ground arith
all_elem f k (j ∷ ks) h e = elim (Bool-cases (j == k)) [
  | inl same ↦ rw (← (eq_iff j k).0 same) (ground arith)
  | inr other ↦ all_elem f k ks (ground arith) (ground arith)
]

all_each : (f : String → Bool) (ks : List String) → ((k : String) → f k ≡ true) → all f ks ≡ true
all_each f [] h = refl
all_each f (k ∷ ks) h = rw (h k, all_each f ks h) refl

-- A key that neither spec has is undefined in both.
unlisted_same :
    (old new : Value) (k : String)
    → any (λ j. j == k) (all_keys old new) ≡ false
    → same_param old new k ≡ true
unfolding all_keys prop
unlisted_same old new k h =
    let olds = entries (prop old "pg_params") in
    let news = entries (prop new "pg_params") in
    let listed = any-add_keys k news (add_keys [] olds) in
    let listed_old = any-add_keys k olds [] in
    rw (get_absent olds k (ground arith), get_absent news k (ground arith)) refl

all_keys_same :
    (old new : Value)
    → (all (same_param old new) (all_keys old new) ≡ true)
      ↔ ((k : String) → same_param old new k ≡ true)
all_keys_same old new = (
  (λ h k. elim (Bool-cases (any (λ j. j == k) (all_keys old new))) [
    | inl e ↦ all_elem (same_param old new) k (all_keys old new) h e
    | inr e ↦ unlisted_same old new k e
  ]),
  all_each (same_param old new) (all_keys old new),
)

three : (b c d : Bool) → ((b && c && d) ≡ true) ↔ ((b ≡ true) × (c ≡ true) × (d ≡ true))
three b c d = ground arith

compute_eq :
    (old new : Value)
    → truthy old ≡ true
    → compute_spec_changes old new
      ≡ place_changes places old new
        ++ param_changes (all_keys old new) old new
        ++ rule_changes old new
unfolding compute_spec_changes
compute_eq old new h = rw h refl

is_none-compute_spec_changes :
    (old new : Value)
    → truthy old ≡ true
    → is_none (compute_spec_changes old new) ≡ (
        all (λ p. same_text (at old p) (at new p)) places
        && all (same_param old new) (all_keys old new)
        && same_rules old new)
is_none-compute_spec_changes old new h =
    let ps = place_changes places old new in
    let ks = param_changes (all_keys old new) old new in
    rw (compute_eq old new h) (
      is_none-append (ps ++ ks) (rule_changes old new)
      ∙ rw
          (
            is_none-append ps ks,
            is_none-place_changes places old new,
            is_none-param_changes (all_keys old new) old new,
            is_none-rule_changes old new,
          )
          refl)

-- For an old spec that counts as true, no change is reported exactly if the values at all compared
-- places have the same text, the values of every parameter have the same text, and the rules,
-- joined by ends of lines, are the same text.
pub compute_spec_changes-nothing :
    (old new : Value)
    → truthy old ≡ true
    → (compute_spec_changes old new ≡ []) ↔ (
        (all (λ p. same_text (at old p) (at new p)) places ≡ true)
        × ((k : String) → same_param old new k ≡ true)
        × (same_rules old new ≡ true))
compute_spec_changes-nothing old new h =
    let counted = is_none-compute_spec_changes old new h in
    let split =
      three (all (λ p. same_text (at old p) (at new p)) places)
        (all (same_param old new) (all_keys old new)) (same_rules old new) in
    let keys = all_keys_same old new in
    (
      (λ e.
          let (p, k, r) = split.0 (sym counted ∙ (is_none-eq (compute_spec_changes old new)).0 e) in
          (p, keys.0 k, r)),
      (λ e.
          let (p, k, r) = e in
          (is_none-eq (compute_spec_changes old new)).1 (counted ∙ split.1 (p, keys.1 k, r))),
    )

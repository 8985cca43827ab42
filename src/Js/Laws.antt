-- ===== src/Js/Laws.antt =====
-- Property reads after writes, spreads and `Object.assign`.
use pg_swarm.Base.{
  String, ◌≡◌, refl, true, false, [], ◌∷◌, arith, ◌==◌, eq_iff, if◌then◌else◌, Bool-cases, inl, inr,
}
use pg_swarm.Js.{Value, Object, get, set, assign, has}

pub get-set :
    (o : Object) (k j : String) (v : Value) → get (set o k v) j ≡ (if k == j then v else get o j)
unfolding get set
get-set [] k j v = refl
get-set ((i, w) ∷ o) k j v = ground (arith, eq_iff k j, eq_iff i k, eq_iff i j, get-set o k j v)

-- A property that the patch does not have keeps its value.
pub get-assign_absent : (b o : Object) (k : String) → has b k ≡ false → get (assign o b) k ≡ get o k
unfolding assign has
get-assign_absent [] o k h = refl
get-assign_absent ((j, v) ∷ b) o k h =
    ground (arith, get-assign_absent b (set o j v) k, get-set o j k v)

-- No property is written twice.
abbrev pub HasDistinctKeys : Object → Type 0
HasDistinctKeys [] = Unit
HasDistinctKeys ((k, v) ∷ o) = (has o k ≡ false) × HasDistinctKeys o

-- A property that the patch has takes the patch's value.
pub get-assign_present :
    (b o : Object) (k : String) → HasDistinctKeys b → has b k ≡ true → get (assign o b) k ≡ get b k
unfolding assign has get
get-assign_present [] o k d h = cc
get-assign_present ((j, v) ∷ b) o k d h = elim (Bool-cases (j == k)) [
  | inl same ↦
      let e : j ≡ k = (eq_iff j k).0 same in
      ground (arith, get-assign_absent b (set o j v) k, get-set o j k v, eq_iff j k, d.0)
  | inr other ↦ rw other (get-assign_present b (set o j v) k d.1 (rw other at h))
]

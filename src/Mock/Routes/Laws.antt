-- ===== src/Mock/Routes/Laws.antt =====
-- The tests of the routes exclude each other, so that their order does not matter.
use mathlib.Core.List.{Memᴰ}
use pg_swarm.Base.{
  String, ◌≡◌, refl, sym, ap, ◌∙◌, Bool, true, false, not, Option, none, some, List, [], ◌∷◌, arith,
  ◌&&◌, Bool-cases, Option-cases, inl, inr, any,
}
use pg_swarm.Mock.{Method, get, post, put, delete}
use pg_swarm.Mock.Paths.{may_overlap}
use pg_swarm.Mock.Paths.Laws.{matches_disjoint}
use pg_swarm.Mock.Routes.{Route, Entry, same_method, allows, fires, route_table, first_route}

methods_meet : Option Method → Option Method → Bool
methods_meet none _ = true
methods_meet (some m) none = true
methods_meet (some m) (some n) = same_method n m

-- Whether some request could pass the tests of both entries.
may_clash : Entry → Entry → Bool
unfolding methods_meet
may_clash e f = may_overlap e.pattern f.pattern && methods_meet e.method f.method

clash_free : List Entry → Bool
clash_free [] = true
clash_free (e ∷ es) = not (any (may_clash e) es) && clash_free es

allows_exclusive :
    (a b : Option Method) (m : Method)
    → methods_meet a b ≡ false
    → allows a m ≡ true
    → allows b m ≡ false
unfolding methods_meet
allows_exclusive none b m h k = cc
allows_exclusive (some a) none m h k = cc
allows_exclusive (some get) (some b) get h k = h
allows_exclusive (some post) (some b) post h k = h
allows_exclusive (some put) (some b) put h k = h
allows_exclusive (some delete) (some b) delete h k = h
allows_exclusive (some a) (some b) m h k = cc

fires_exclusive :
    (m : Method) (parts : List String) (e f : Entry)
    → may_clash e f ≡ false
    → fires m parts e ≡ true
    → fires m parts f ≡ false
unfolding may_clash fires
fires_exclusive m parts e f h k =
    ground (arith, matches_disjoint e.pattern f.pattern parts, allows_exclusive e.method f.method m)

no_clash_at :
    (e : Entry) {f : Entry} {es : List Entry}
    → Memᴰ f es
    → any (may_clash e) es ≡ false
    → may_clash e f ≡ false
no_clash_at e (Memᴰ.head p) h = rw p (ground arith)
no_clash_at e (Memᴰ.tail q) h = no_clash_at e q (ground arith)

module _ (m : Method) (parts : List String) where
  -- In a table without clashes an entry whose test passes is the one that is taken.
  first_route-fires :
      {e : Entry} {es : List Entry}
      → Memᴰ e es
      → clash_free es ≡ true
      → fires m parts e ≡ true
      → first_route es m parts ≡ some e.route
  unfolding first_route clash_free
  first_route-fires (Memᴰ.head {x} p) c k = rw p (rw (rw p at k) refl)
  first_route-fires {e} (Memᴰ.tail {x} q) c k =
      let apart = no_clash_at x q (ground arith) in
      elim (Bool-cases (fires m parts x)) [
        | inl here ↦ absurd (cc (fires_exclusive m parts x e apart here))
        | inr missed ↦ rw missed (first_route-fires q (ground arith) k)
      ]

  first_route-eq-some :
      (es : List Entry) {r : Route}
      → first_route es m parts ≡ some r
      → (e : Entry) × Memᴰ e es × (fires m parts e ≡ true) × (e.route ≡ r)
  unfolding first_route
  first_route-eq-some [] h = cc
  first_route-eq-some (x ∷ es) h = elim (Bool-cases (fires m parts x)) [
    | inl here ↦ (x, Memᴰ.head refl, here, ground arith)
    | inr missed ↦
        let (e, listed, here, same) = first_route-eq-some es (rw missed at h) in
        (e, Memᴰ.tail listed, here, same)
  ]

  first_route-eq-none :
      {e : Entry} {es : List Entry}
      → Memᴰ e es
      → first_route es m parts ≡ none
      → fires m parts e ≡ false
  unfolding first_route
  first_route-eq-none (Memᴰ.head p) h = rw p (ground arith)
  first_route-eq-none (Memᴰ.tail q) h = first_route-eq-none q (ground arith)

route_table-clash_free : clash_free route_table ≡ true
unfolding clash_free may_clash route_table may_overlap
route_table-clash_free = refl

-- An entry of the table whose test passes decides the route, whatever stands before it.
pub route_table-fires :
    (m : Method) (parts : List String) (e : Entry)
    → Memᴰ e route_table
    → fires m parts e ≡ true
    → first_route route_table m parts ≡ some e.route
route_table-fires m parts e listed here =
    first_route-fires m parts listed route_table-clash_free here

-- Tables with the entries of the source in any order, also repeated, choose the same route.
pub route_order_irrelevant :
    (es : List Entry) (m : Method) (parts : List String)
    → ((e : Entry) → Memᴰ e es → Memᴰ e route_table)
    → ((e : Entry) → Memᴰ e route_table → Memᴰ e es)
    → first_route es m parts ≡ first_route route_table m parts
route_order_irrelevant es m parts into back = elim (Option-cases (first_route es m parts)) [
  | inl missed ↦ elim (Option-cases (first_route route_table m parts)) [
    | inl nothing ↦ missed ∙ sym nothing
    | inr (r, chosen) ↦
        let (e, listed, here, _) = first_route-eq-some m parts route_table chosen in
        absurd (cc (first_route-eq-none m parts (back e listed) missed))
  ]
  | inr (r, chosen) ↦
      let (e, listed, here, same) = first_route-eq-some m parts es chosen in
      chosen ∙ sym (route_table-fires m parts e (into e listed) here ∙ ap some same)
]

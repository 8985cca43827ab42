-- ===== src/EventRules/Manager/Laws.antt =====
-- The checkboxes of a rule set's handlers agree with the server while they are clicked.
use pg_swarm.Base.{
  String, ◌≡◌, refl, true, false, List, [], ◌∷◌, ◌==◌, if◌then◌else◌, All, Bool-cases, inl, inr,
  sym, ◌∙◌, eq_refl,
}
use pg_swarm.Js.{Value, str, undefined}
use pg_swarm.Js.Text.{to_text}
use pg_swarm.Mock.{State, Host}
use pg_swarm.Mock.RuleSets.{includes, without_value}
use pg_swarm.Api.Paths.{IsId}
use pg_swarm.Api.Effects.{after}
use pg_swarm.Api.Members.{
  is_member, strict_eq-str, includes-append_str, includes-without_value, add_handler-is_member,
  remove_handler-is_member,
}
use pg_swarm.View.Outcome.{resolves}
use pg_swarm.EventRules.Manager.{Manager, has_id, add_id, delete_id, toggle_call, after_toggle}

has_id-add_id :
    (ids : List Value) (hid j : String)
    → has_id (str j) (add_id (str hid) ids) ≡ (if hid == j then true else has_id (str j) ids)
unfolding has_id add_id includes
has_id-add_id ids hid j = includes-append_str ids hid j

delete_id-str : (ids : List Value) (hid : String) → delete_id (str hid) ids ≡ without_value hid ids
unfolding delete_id without_value
delete_id-str [] hid = refl
delete_id-str (v ∷ ids) hid = rw (strict_eq-str v hid, delete_id-str ids hid) refl

has_id-delete_id :
    (ids : List Value) (hid j : String)
    → has_id (str j) (delete_id (str hid) ids) ≡ (if hid == j then false else has_id (str j) ids)
unfolding has_id includes
has_id-delete_id ids hid j = rw (delete_id-str ids hid) (includes-without_value ids hid j)

-- A click on the checkbox of a handler, as it is drawn, whose call the server answers.
unfoldable pub click : Host → String → String → Manager × State → Manager × State
unfolding toggle_call after_toggle
click host id hid (m, s) =
    let on = has_id (str hid) m.included in
    let result = resolves undefined in
    ((after_toggle (str hid) on result m).0, after host (toggle_call id (str hid) on) s)

unfoldable pub clicks : Host → String → List String → Manager × State → Manager × State
clicks host id [] p = p
clicks host id (hid ∷ hids) p = clicks host id hids (click host id hid p)

click_mirrors :
    (host : Host) (id hid : String) (m : Manager) (s : State)
    → IsId id
    → IsId hid
    → ((j : String) → has_id (str j) m.included ≡ is_member s id j)
    → (j : String)
    → has_id (str j) ((click host id hid (m, s)).0.included)
      ≡ is_member ((click host id hid (m, s)).1) id j
unfolding click toggle_call after_toggle to_text
click_mirrors host id hid m s h g same j = elim (Bool-cases (has_id (str hid) m.included)) [
  | inl on ↦
      rw (on, has_id-delete_id m.included hid j)
        (sym (remove_handler-is_member host id hid s h g id j ∙ rw (eq_refl id, same j) refl))
  | inr off ↦
      rw (off, has_id-add_id m.included hid j)
        (sym (add_handler-is_member host id hid s h id j ∙ rw (eq_refl id, same j) refl))
]

-- From checkboxes that show the members of the rule set on the mock server, any clicks whose calls
-- are answered lead to checkboxes that show its members again; the ids are not empty and
-- made of ASCII letters, digits, '-' and '_'.
pub clicks_mirror :
    (host : Host) (id : String) (hids : List String) (m : Manager) (s : State)
    → IsId id
    → All IsId hids
    → ((j : String) → has_id (str j) m.included ≡ is_member s id j)
    → (j : String)
    → has_id (str j) ((clicks host id hids (m, s)).0.included)
      ≡ is_member ((clicks host id hids (m, s)).1) id j
unfolding clicks
clicks_mirror host id [] m s h g same j = same j
clicks_mirror host id (hid ∷ hids) m s h g same j =
    let next = click host id hid (m, s) in
    clicks_mirror host id hids next.0 next.1 h g.1 (click_mirrors host id hid m s h g.0 same) j

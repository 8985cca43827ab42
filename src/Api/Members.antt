-- ===== src/Api/Members.antt =====
-- The handlers that belong to a rule set, after the client adds and removes one.
use pg_swarm.Base.{
  String, ◌≡◌, refl, Bool, true, false, List, [], ◌∷◌, ◌++◌, arith, Bool-cases, Option-cases, inl,
  inr, ◌&&◌, if◌then◌else◌, ◌==◌, eq_iff, any-append,
}
use pg_swarm.Js.{Value, undefined, str, get, is_str, strict_eq}
use pg_swarm.Js.Json.{json_object}
use pg_swarm.Mock.{State, Host}
use pg_swarm.Mock.RuleSets.{
  IdMap, post_handler, lookup_ids, includes, ids_or_empty, add_id, without_value, remove_id,
  handle_rule_set,
}
use pg_swarm.Mock.Collection.Laws.{is_str_unique, is_str_equal}
use pg_swarm.Mock.RuleSets.Ids.{lookup_ids-put_ids}
use pg_swarm.Mock.Server.{handle}
use pg_swarm.Api.Paths.{IsId}
use pg_swarm.Api.RuleSets.{RuleSetCall, rule_set_request}
use pg_swarm.Api.Calls.{rule_set_call, request_of, wire}
use pg_swarm.Api.Effects.{after, after-eq-answer}

-- Whether the handler is among those of the rule set.
unfoldable pub is_member : State → String → String → Bool
is_member s id hid = includes (ids_or_empty (lookup_ids id s.rule_set_handlers)) (str hid)

pub strict_eq-str : (v : Value) (t : String) → strict_eq v (str t) ≡ is_str v t
unfolding strict_eq
strict_eq-str (str s) t = refl
strict_eq-str undefined t = refl
strict_eq-str _ t = refl

pub includes-append_str :
    (ids : List Value) (hid j : String)
    → includes (if includes ids (str hid) then ids else ids ++ str hid ∷ []) (str j)
      ≡ (if hid == j then true else includes ids (str j))
unfolding includes strict_eq
includes-append_str ids hid j =
    ground (arith, any-append (λ w. strict_eq w (str j)) ids (str hid ∷ []), eq_iff hid j)

pub includes-without_value :
    (ids : List Value) (hid j : String)
    → includes (without_value hid ids) (str j) ≡ (if hid == j then false else includes ids (str j))
unfolding includes without_value
includes-without_value [] hid j = ground arith
includes-without_value (v ∷ ids) hid j = ground (
  arith,
  includes-without_value ids hid j,
  strict_eq-str v j,
  is_str_unique v hid j,
  is_str_equal v hid j,
)

no_member :
    (hid j : String) → includes [] (str j) ≡ (if hid == j then false else includes [] (str j))
unfolding includes
no_member hid j = ground arith

module _ (k i : String) (hid j : String) (m : IdMap) where
  lookup-add_id :
      includes (ids_or_empty (lookup_ids i (add_id k (str hid) m))) (str j)
      ≡ (if (k == i) && (hid == j) then true else includes (ids_or_empty (lookup_ids i m)) (str j))
  unfolding add_id
  lookup-add_id = rw (lookup_ids-put_ids k i _ m) (elim (Bool-cases (k == i)) [
    | inl same ↦
        rw (same, ← (eq_iff k i).0 same) (includes-append_str (ids_or_empty (lookup_ids k m)) hid j)
    | inr other ↦ rw other refl
  ])

  lookup-remove_id :
      includes (ids_or_empty (lookup_ids i (remove_id k hid m))) (str j)
      ≡ (if (k == i) && (hid == j) then false else includes (ids_or_empty (lookup_ids i m)) (str j))
  unfolding remove_id
  lookup-remove_id = elim (Option-cases (lookup_ids k m)) [
    | inl absent ↦ rw absent (elim (Bool-cases (k == i)) [
      | inl same ↦ rw (same, ← (eq_iff k i).0 same, absent) (no_member hid j)
      | inr other ↦ rw other refl
    ])
    | inr (ids, found) ↦
        rw (found, lookup_ids-put_ids k i (without_value hid ids) m)
          (elim (Bool-cases (k == i)) [
            | inl same ↦ rw (same, ← (eq_iff k i).0 same, found) (includes-without_value ids hid j)
            | inr other ↦ rw other refl
          ])
  ]

-- `addHandlerToRuleSet(id, hid)`, where `id` reaches the server as it is, makes the handler one of the
-- rule set's, and changes nothing else about which handlers belong to which rule sets.
pub add_handler-is_member :
    (host : Host) (id hid : String) (s : State)
    → IsId id
    → (i j : String)
    → is_member
        (after host (rule_set_call (RuleSetCall.add_handler_to_rule_set id (str hid))) s)
        i
        j
      ≡ (if (id == i) && (hid == j) then true else is_member s i j)
unfolding is_member handle handle_rule_set post_handler wire json_object request_of rule_set_request
    get
add_handler-is_member host id hid s h i j =
    rw (after-eq-answer host (rule_set_call (RuleSetCall.add_handler_to_rule_set id (str hid))) s h)
      (lookup-add_id id i hid j s.rule_set_handlers)

-- `removeHandlerFromRuleSet(id, hid)`, where both ids reach the server as they are, takes the handler out
-- of the rule set, and changes nothing else about which handlers belong to which rule sets.
pub remove_handler-is_member :
    (host : Host) (id hid : String) (s : State)
    → IsId id
    → IsId hid
    → (i j : String)
    → is_member (after host (rule_set_call (RuleSetCall.remove_handler_from_rule_set id hid)) s) i j
      ≡ (if (id == i) && (hid == j) then false else is_member s i j)
unfolding is_member handle handle_rule_set
remove_handler-is_member host id hid s h g i j =
    rw
      (after-eq-answer host (rule_set_call (RuleSetCall.remove_handler_from_rule_set id hid)) s
        (h, g))
      (lookup-remove_id id i hid j s.rule_set_handlers)

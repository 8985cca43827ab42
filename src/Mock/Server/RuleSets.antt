-- ===== src/Mock/Server/RuleSets.antt =====
-- What every request keeps of the rule sets: their handler lists hold no id twice, and a built-in
-- rule set stays.
use pg_swarm.Base.{
  String, ◌≡◌, refl, ◌∙◌, Bool, true, false, List, [], ◌∷◌, ◌++◌, arith, Bool-cases, inl, inr, ◌==◌,
  eq_iff, All, Option, none, some, Option-cases,
}
use pg_swarm.Js.{Object, get, assign, has}
use pg_swarm.Js.Laws.{get-assign_absent}
use pg_swarm.Mock.{State, Host, Request, props}
use pg_swarm.Mock.Collection.{has_id, find_by_id, without_id, update_first, patch_by_id}
use pg_swarm.Mock.Collection.Laws.{find_by_id-without_id_ne}
use pg_swarm.Mock.Profiles.{updated}
use pg_swarm.Mock.RuleSets.{
  RuleSetRoute, handle_rule_set, is_builtin, post_handler, ensure_ids, lookup_ids,
}
use pg_swarm.Mock.RuleSets.Ids.{
  AllDistinct, put_ids-AllDistinct, delete_ids-AllDistinct, add_id-AllDistinct,
  remove_id-AllDistinct,
}
use pg_swarm.Mock.Server.{serve}
use pg_swarm.Mock.Server.Invariants.{serve-Keeps}

post_handler-AllDistinct :
    (body : Option Object) (id : String) (s : State)
    → AllDistinct s.rule_set_handlers
    → AllDistinct (post_handler body id s).0.rule_set_handlers
unfolding post_handler ensure_ids
post_handler-AllDistinct (some b) id s h = add_id-AllDistinct id _ s.rule_set_handlers h
post_handler-AllDistinct none id s h = elim (Option-cases (lookup_ids id s.rule_set_handlers)) [
  | inl missing ↦ rw missing (put_ids-AllDistinct id [] s.rule_set_handlers tt h)
  | inr (ids, found) ↦ rw found h
]

post_handler_same_sets :
    (body : Option Object) (id : String) (s : State)
    → (post_handler body id s).0.event_rule_sets ≡ s.event_rule_sets
unfolding post_handler
post_handler_same_sets none id s = refl
post_handler_same_sets (some b) id s = refl

handle_rule_set-AllDistinct :
    (host : Host) (req : Request) (id hid : String) (q : RuleSetRoute) (s : State)
    → AllDistinct s.rule_set_handlers
    → AllDistinct (handle_rule_set host req id hid q s).0.rule_set_handlers
unfolding handle_rule_set
handle_rule_set-AllDistinct host req id hid RuleSetRoute.create_rule_set s h =
    put_ids-AllDistinct _ [] s.rule_set_handlers tt h
handle_rule_set-AllDistinct host req id hid RuleSetRoute.delete_rule_set s h =
    elim (Bool-cases (is_builtin (find_by_id id s.event_rule_sets))) [
      | inl builtin ↦ rw builtin h
      | inr free ↦ rw free (delete_ids-AllDistinct id s.rule_set_handlers h)
    ]
handle_rule_set-AllDistinct host req id hid RuleSetRoute.add_handler s h =
    post_handler-AllDistinct req.body id s h
handle_rule_set-AllDistinct host req id hid RuleSetRoute.remove_handler s h =
    remove_id-AllDistinct id hid s.rule_set_handlers h
handle_rule_set-AllDistinct host req id hid _ s h = h

-- The states after any number of requests, each with what its handler reads of the host.
unfoldable pub serve_all : List (Host × Request) → State → State
serve_all [] s = s
serve_all ((host, req) ∷ reqs) s = serve_all reqs (serve host req s).0

-- From a state in which no handler list of a rule set holds an id twice, no sequence of requests
-- leads to one in which a list does.
pub serve_all-AllDistinct :
    (reqs : List (Host × Request)) (s : State)
    → AllDistinct s.rule_set_handlers
    → AllDistinct (serve_all reqs s).rule_set_handlers
unfolding serve_all
serve_all-AllDistinct [] s h = h
serve_all-AllDistinct ((host, req) ∷ reqs) s h = serve_all-AllDistinct reqs (serve host req s).0 (
    serve-Keeps (λ sets ids. AllDistinct ids) host req s
      (λ id hid q k. handle_rule_set-AllDistinct host req id hid q s k) h)

-- The first rule set with the id is there and is a built-in one.
abbrev pub IsBuiltin : String → List Object → Type 0
IsBuiltin id sets = is_builtin (find_by_id id sets) ≡ true

-- The body of the request writes neither `id` nor `builtin`.
abbrev pub LeavesIdentity : Request → Type 0
LeavesIdentity req = (has (props req.body) "id" ≡ false) × (has (props req.body) "builtin" ≡ false)

IsBuiltin-append :
    (id : String) (sets : List Object) (rs : Object)
    → IsBuiltin id sets
    → IsBuiltin id (sets ++ rs ∷ [])
unfolding find_by_id is_builtin
IsBuiltin-append id [] rs h = cc
IsBuiltin-append id (o ∷ sets) rs h = ground (arith, IsBuiltin-append id sets rs)

-- Writes that leave `id` and `builtin` alone.
IsBuiltin-update_first :
    (id : String) (p : Object → Bool) (f : Object → Object) (sets : List Object)
    → ((o : Object) → get (f o) "id" ≡ get o "id")
    → ((o : Object) → get (f o) "builtin" ≡ get o "builtin")
    → is_builtin (find_by_id id (update_first p f sets)) ≡ is_builtin (find_by_id id sets)
unfolding find_by_id update_first has_id is_builtin
IsBuiltin-update_first id p f [] same_id same_builtin = refl
IsBuiltin-update_first id p f (o ∷ sets) same_id same_builtin =
    ground
      (arith, IsBuiltin-update_first id p f sets same_id same_builtin, same_id o, same_builtin o)

patch_keeps :
    (b : Object) (at k : String) (o : Object)
    → has b k ≡ false
    → has (updated at) k ≡ false
    → get (assign (assign o b) (updated at)) k ≡ get o k
patch_keeps b at k o h g =
    get-assign_absent (updated at) (assign o b) k g ∙ get-assign_absent b o k h

IsBuiltin-delete :
    (id j : String) (sets : List Object)
    → is_builtin (find_by_id j sets) ≡ false
    → IsBuiltin id sets
    → IsBuiltin id (without_id j sets)
IsBuiltin-delete id j sets free h = elim (Bool-cases (j == id)) [
  | inl same ↦ let e : j ≡ id = (eq_iff j id).0 same in cc
  | inr other ↦ rw (find_by_id-without_id_ne j id sets other) h
]

handle_rule_set-IsBuiltin :
    (host : Host) (req : Request) (id hid name : String) (q : RuleSetRoute) (s : State)
    → LeavesIdentity req
    → IsBuiltin name s.event_rule_sets
    → IsBuiltin name (handle_rule_set host req id hid q s).0.event_rule_sets
unfolding handle_rule_set
handle_rule_set-IsBuiltin host req id hid name RuleSetRoute.create_rule_set s l h =
    IsBuiltin-append name s.event_rule_sets _ h
handle_rule_set-IsBuiltin host req id hid name RuleSetRoute.update_rule_set s l h =
    unfold patch_by_id has in
    IsBuiltin-update_first name (has_id id) _ s.event_rule_sets
      (λ o. patch_keeps (props req.body) (host.iso 0) "id" o l.0 refl)
      (λ o. patch_keeps (props req.body) (host.iso 0) "builtin" o l.1 refl)
    ∙ h
handle_rule_set-IsBuiltin host req id hid name RuleSetRoute.delete_rule_set s l h =
    elim (Bool-cases (is_builtin (find_by_id id s.event_rule_sets))) [
      | inl builtin ↦ rw builtin h
      | inr free ↦ rw free (IsBuiltin-delete name id s.event_rule_sets free h)
    ]
handle_rule_set-IsBuiltin host req id hid name RuleSetRoute.add_handler s l h =
    rw (post_handler_same_sets req.body id s) h
handle_rule_set-IsBuiltin host req id hid name _ s l h = h

-- A built-in rule set stays, and stays built-in, under any requests whose bodies write neither
-- `id` nor `builtin`; a request to delete it is among them.
pub serve_all-IsBuiltin :
    (reqs : List (Host × Request)) (id : String) (s : State)
    → All (λ r. LeavesIdentity r.1) reqs
    → IsBuiltin id s.event_rule_sets
    → IsBuiltin id (serve_all reqs s).event_rule_sets
unfolding serve_all
serve_all-IsBuiltin [] id s l h = h
serve_all-IsBuiltin ((host, req) ∷ reqs) id s l h =
    serve_all-IsBuiltin reqs id (serve host req s).0 l.1 (
      serve-Keeps (λ sets ids. IsBuiltin id sets) host req s
        (λ i hid q k. handle_rule_set-IsBuiltin host req i hid id q s l.0 k) h)

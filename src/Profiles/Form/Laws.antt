-- ===== src/Profiles/Form/Laws.antt =====
-- The button that resets a parameter.
use pg_swarm.Base.{
  String, ◌≡◌, refl, Bool, false, not, [], ◌∷◌, ◌==◌, if◌then◌else◌, filter, Bool-cases, inl, inr,
  arith, eq_iff,
}
use pg_swarm.Js.{Value, undefined, Object, get, has, strict_eq}
use pg_swarm.Js.Props.{prop, without, entries, prop-put, entries-without}
use pg_swarm.Profiles.Catalog.{default_pg_params}
use pg_swarm.Profiles.Form.{remove_pg_param, changed_params}

get-filter_key :
    (o : Object) (k j : String)
    → get (filter (λ e. not (e.0 == k)) o) j ≡ (if k == j then undefined else get o j)
unfolding get
get-filter_key [] k j = ground arith
get-filter_key ((i, v) ∷ o) k j =
    ground (arith, get-filter_key o k j, eq_iff i k, eq_iff i j, eq_iff k j)

has-filter_key : (o : Object) (k : String) → has (filter (λ e. not (e.0 == k)) o) k ≡ false
unfolding has
has-filter_key [] k = refl
has-filter_key ((i, v) ∷ o) k = ground (arith, has-filter_key o k)

has-filter :
    (p : String × Value → Bool) (o : Object) (k : String)
    → has o k ≡ false
    → has (filter p o) k ≡ false
unfolding has
has-filter p [] k h = refl
has-filter p ((j, v) ∷ o) k h = elim (Bool-cases (p (j, v))) [
  | inl q ↦ rw q (ground (arith, has-filter p o k))
  | inr q ↦ rw q (ground (arith, has-filter p o k))
]

params-remove :
    (s : Value) (k : String)
    → prop (remove_pg_param k s) "pg_params" ≡ without (prop s "pg_params") k
unfolding remove_pg_param
params-remove s k = rw (prop-put s "pg_params" "pg_params" (without (prop s "pg_params") k)) refl

prop-without :
    (v : Value) (k j : String) → prop (without v k) j ≡ (if k == j then undefined else prop v j)
unfolding prop
prop-without v k j = rw (entries-without v k) (get-filter_key (entries v) k j)

changed_params-remove :
    (s : Value) (k : String) → has (changed_params (remove_pg_param k s)) k ≡ false
unfolding changed_params
changed_params-remove s k =
    let params = prop s "pg_params" in
    rw (params-remove s k, entries-without params k)
      (has-filter (λ e. not (strict_eq (get default_pg_params e.0) e.1))
        (filter (λ e. not (e.0 == k)) (entries params)) k (has-filter_key (entries params) k))

-- After the reset of a parameter it is missing and is not counted as changed; every other parameter
-- has its value.
pub remove_pg_param_resets :
    (s : Value) (k : String)
    → ((j : String)
        → prop (prop (remove_pg_param k s) "pg_params") j
          ≡ (if k == j then undefined else prop (prop s "pg_params") j))
      × (has (changed_params (remove_pg_param k s)) k ≡ false)
remove_pg_param_resets s k = (
  (λ j. rw (params-remove s k) (prop-without (prop s "pg_params") k j)),
  changed_params-remove s k,
)

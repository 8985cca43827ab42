-- ===== src/Profiles/Form/General/Laws.antt =====
-- The select of the version offers the version that the spec has.
use pg_swarm.Base.{
  String, ◌≡◌, refl, Bool, true, List, [], ◌∷◌, ◌==◌, ◌||◌, any, Bool-cases, inl, inr, arith,
  eq_iff, eq_refl,
}
use pg_swarm.Js.{Value, str, Object, get, truthy, or_else}
use pg_swarm.Js.Props.{prop}
use pg_swarm.Profiles.Form.General.{VersionOption, version_value, listed_versions, version_options}

abbrev pub value_is : String → VersionOption → Bool
value_is val o = version_value o.version o.variant == val

abbrev listed_is : String → Object → Bool
listed_is val pv = version_value (get pv "version") (get pv "variant") == val

known_value :
    (v val : String) (seen : List String)
    → any (λ s. s == v) seen ≡ true
    → (v == val) ≡ true
    → any (λ s. s == val) seen ≡ true
known_value v val seen h e = rw (← (eq_iff v val).0 e) h

any-listed_versions :
    (val : String) (seen : List String) (pvs : List Object)
    → (any (value_is val) (listed_versions seen pvs) || any (λ s. s == val) seen)
      ≡ (any (listed_is val) pvs || any (λ s. s == val) seen)
unfolding listed_versions
any-listed_versions val seen [] = refl
any-listed_versions val seen (pv ∷ pvs) =
    let v = version_value (get pv "version") (get pv "variant") in
    elim (Bool-cases (any (λ s. s == v) seen)) [
      | inl h ↦ rw h (ground (arith, any-listed_versions val seen pvs, known_value v val seen h))
      | inr h ↦ rw h (ground (arith, any-listed_versions val (v ∷ seen) pvs))
    ]

-- If the spec has a version, an option of the select has the value that the select is given.
pub version_options-current :
    (pvs : List Object) (spec : Value)
    → truthy (prop (prop spec "postgres") "version") ≡ true
    → any
        (value_is (
          version_value
            (prop (prop spec "postgres") "version")
            (or_else (prop (prop spec "postgres") "variant") (str "alpine"))))
        (version_options pvs spec)
      ≡ true
unfolding version_options
version_options-current pvs spec h =
    let version = prop (prop spec "postgres") "version" in
    let variant = or_else (prop (prop spec "postgres") "variant") (str "alpine") in
    let val = version_value version variant in
    let listed = any-listed_versions val [] pvs in
    elim (Bool-cases (any (listed_is val) pvs)) [
      | inl e ↦ rw (h, e) (ground (arith, listed))
      | inr e ↦ rw (h, e) (ground (arith, eq_refl val))
    ]

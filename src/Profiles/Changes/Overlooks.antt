-- ===== src/Profiles/Changes/Overlooks.antt =====
-- What `computeSpecChanges` does not look at.
use pg_swarm.Base.{String, ◌≡◌, refl, ◌∙◌, Bool, false, List, [], ◌∷◌, ◌==◌, ◌||◌, any, arith}
use pg_swarm.Js.{Value}
use pg_swarm.Js.Props.{put, prop-put}
use pg_swarm.Profiles.Changes.{
  Place, top, inside, at, places, place_changes, all_keys, param_changes, rule_changes,
  compute_spec_changes,
}

abbrev section_of : Place → String
section_of (top label k) = k
section_of (inside label k j) = k

-- Whether a property of the spec is one that is compared.
is_compared : String → Bool
is_compared k = any (λ p. k == section_of p) places || k == "pg_params" || k == "hba_rules"

at-put :
    (p : Place) (s w : Value) (k : String) → k == section_of p ≡ false → at (put s k w) p ≡ at s p
at-put (top label j) s w k h = rw (prop-put s k j w, h) refl
at-put (inside label j i) s w k h = rw (prop-put s k j w, h) refl

place_changes-put :
    (ps : List Place) (old new w : Value) (k : String)
    → any (λ p. k == section_of p) ps ≡ false
    → place_changes ps old (put new k w) ≡ place_changes ps old new
unfolding place_changes
place_changes-put [] old new w k h = refl
place_changes-put (p ∷ ps) old new w k h =
    rw (at-put p new w k (ground arith), place_changes-put ps old new w k (ground arith)) refl

none_of : (b c d : Bool) → (b || c || d) ≡ false → (b ≡ false) × (c ≡ false) × (d ≡ false)
none_of b c d h = ground arith

param_changes-put :
    (ks : List String) (old new w : Value) (k : String)
    → k == "pg_params" ≡ false
    → param_changes ks old (put new k w) ≡ param_changes ks old new
unfolding param_changes
param_changes-put [] old new w k h = refl
param_changes-put (j ∷ ks) old new w k h =
    rw (prop-put new k "pg_params" w, h, param_changes-put ks old new w k h) refl

all_keys-put :
    (old new w : Value) (k : String)
    → k == "pg_params" ≡ false
    → all_keys old (put new k w) ≡ all_keys old new
unfolding all_keys
all_keys-put old new w k h = rw (prop-put new k "pg_params" w, h) refl

rule_changes-put :
    (old new w : Value) (k : String)
    → k == "hba_rules" ≡ false
    → rule_changes old (put new k w) ≡ rule_changes old new
unfolding rule_changes
rule_changes-put old new w k h = rw (prop-put new k "hba_rules" w, h) refl

put_overlooked :
    (old new w : Value) (k : String)
    → is_compared k ≡ false
    → compute_spec_changes old (put new k w) ≡ compute_spec_changes old new
unfolding compute_spec_changes is_compared
put_overlooked old new w k h =
    let (p, g, r) = none_of (any (λ p. k == section_of p) places) _ _ h in
    rw
      (
        place_changes-put places old new w k p,
        all_keys-put old new w k g,
        param_changes-put (all_keys old new) old new w k g,
        rule_changes-put old new w k r,
      )
      refl

-- Whatever an edit makes of `backup` and `deletion_protection`, the reported changes are those that
-- there would be without it.
pub compute_spec_changes_overlooks :
    (old new backup protection : Value)
    → compute_spec_changes old (put (put new "backup" backup) "deletion_protection" protection)
      ≡ compute_spec_changes old new
unfolding is_compared
compute_spec_changes_overlooks old new backup protection =
    put_overlooked old (put new "backup" backup) protection "deletion_protection" refl
    ∙ put_overlooked old new backup "backup" refl

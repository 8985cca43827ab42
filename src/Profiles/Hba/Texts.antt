-- ===== src/Profiles/Hba/Texts.antt =====
-- The updates of the rules keep an array of texts one.
use pg_swarm.Base.{
  ℕ, zero, suc, String, ◌≡◌, refl, true, List, [], ◌∷◌, ◌++◌, all, arith, ltb, length,
}
use pg_swarm.Js.{Value, str, arr}
use pg_swarm.Js.Props.{list_of}
use pg_swarm.Profiles.Spec.{is_text, is_text_array}
use pg_swarm.Profiles.Hba.{Column, edit_rules, drop_at}

pub edit_rules-texts :
    (i : ℕ) (c : Column) (t : String) (vs : List Value)
    → ltb i (length vs) ≡ true
    → all is_text vs ≡ true
    → all is_text (edit_rules i c t vs) ≡ true
unfolding edit_rules
edit_rules-texts i c t [] g h = ground arith
edit_rules-texts zero c t (v ∷ vs) g h = ground arith
edit_rules-texts (suc i) c t (v ∷ vs) g h = ground (arith, edit_rules-texts i c t vs)

pub drop_at-texts :
    (i : ℕ) (vs : List Value) → all is_text vs ≡ true → all is_text (drop_at i vs) ≡ true
unfolding drop_at
drop_at-texts i [] h = refl
drop_at-texts zero (v ∷ vs) h = ground arith
drop_at-texts (suc i) (v ∷ vs) h = ground (arith, drop_at-texts i vs)

pub append-texts :
    (t : String) (vs : List Value) → all is_text vs ≡ true → all is_text (vs ++ str t ∷ []) ≡ true
append-texts t [] h = refl
append-texts t (v ∷ vs) h = ground (arith, append-texts t vs)

pub array_texts : (v : Value) → is_text_array v ≡ true → all is_text (list_of v) ≡ true
array_texts (arr xs) h = h
array_texts _ h = refl

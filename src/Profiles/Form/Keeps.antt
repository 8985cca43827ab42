-- ===== src/Profiles/Form/Keeps.antt =====
-- The updates of the form keep a spec in the shape that the form reads.
use pg_swarm.Base.{
  ℕ, String, ◌≡◌, refl, Bool, true, false, List, [], ◌∷◌, all, arith, Bool-cases, inl, inr, ltb,
  length, if◌then◌else◌, ◌==◌, ◌||◌,
}
use pg_swarm.Js.{Value, undefined, null, bool, num, str, obj, arr, or_else, get}
use pg_swarm.Js.Props.{prop, put, put_in, list_of, items, prop-put, is_object}
use pg_swarm.Profiles.Spec.{is_text, is_spec, is_backup, has_sections}
use pg_swarm.Profiles.Spec.Laws.{kept, fits, is_spec-put, is_text_array-items}
use pg_swarm.Profiles.Hba.{Column, edit_rules, set_hba_field, add_hba_rule, remove_hba_rule}
use pg_swarm.Profiles.Hba.Texts.{edit_rules-texts, drop_at-texts, append-texts, array_texts}
use pg_swarm.Profiles.Form.{set_pg_param, remove_pg_param}
use pg_swarm.Profiles.Form.General.{choose_version}
use pg_swarm.Profiles.Form.Volumes.{choose_wal}
use pg_swarm.Profiles.Form.Backup.{empty_backup, is_enabled, toggle, set_backup, set_part}

-- The updates of a spec by the tabs. Those with a name `write_` are of an input for a property, of the
-- spec or of a section; `switch_backup` comes with the spec that the tab was drawn for.
pub data SpecEdit : Type 0 where
  set_param : String → Value → SpecEdit
  reset_param : String → SpecEdit
  edit_rule : ℕ → Column → String → SpecEdit
  add_rule : SpecEdit
  remove_rule : ℕ → SpecEdit
  pick_version : String → SpecEdit
  pick_wal : Bool → SpecEdit
  write_replicas : ℕ → SpecEdit
  write_protection : Bool → SpecEdit
  switch_backup : Value → SpecEdit
  pick_store : String → SpecEdit
  write_backup : String → String → Value → SpecEdit
  write_storage write_wal write_resources write_postgres write_sentinel : String → Value → SpecEdit

unfoldable pub apply_edit : SpecEdit → Value → Value
apply_edit (set_param k v) s = set_pg_param k v s
apply_edit (reset_param k) s = remove_pg_param k s
-- only a rule that the tab shows has inputs
apply_edit (edit_rule i c t) s =
    if ltb i (length (list_of (prop s "hba_rules"))) then set_hba_field i c t s else s
apply_edit add_rule s = add_hba_rule s
apply_edit (remove_rule i) s = remove_hba_rule i s
apply_edit (pick_version t) s = choose_version t s
apply_edit (pick_wal b) s = choose_wal b s
apply_edit (write_replicas n) s = put s "replicas" (num n)
apply_edit (write_protection c) s = put s "deletion_protection" (bool c)
apply_edit (switch_backup drawn) s = toggle drawn s
apply_edit (pick_store t) s = set_backup (λ b. put b "store_id" (or_else (str t) null)) s
apply_edit (write_backup k j v) s = set_part k j v s
apply_edit (write_storage j v) s = put_in s "storage" j v
apply_edit (write_wal j v) s = put_in s "wal_storage" j v
apply_edit (write_resources j v) s = put_in s "resources" j v
apply_edit (write_postgres j v) s = put_in s "postgres" j v
apply_edit (write_sentinel j v) s = put_in s "sentinel" j v

unfoldable pub apply_edits : List SpecEdit → Value → Value
apply_edits [] s = s
apply_edits (e ∷ es) s = apply_edits es (apply_edit e s)

rules_texts : (s : Value) → is_spec s ≡ true → all is_text (list_of (prop s "hba_rules")) ≡ true
unfolding is_spec
rules_texts s h = array_texts (prop s "hba_rules") (ground arith)

false_keeps : (b c : Bool) → b ≡ false → kept b c ≡ true
unfolding kept
false_keeps b c h = ground arith

-- A write of rules that are texts if those before are.
rules_kept :
    (s : Value) (vs : List Value)
    → (is_spec s ≡ true → all is_text vs ≡ true)
    → kept (is_spec s) (is_spec (put s "hba_rules" (arr (items vs)))) ≡ true
unfolding fits
rules_kept s vs h = elim (Bool-cases (is_spec s)) [
  | inl e ↦ is_spec-put s (arr (items vs)) "hba_rules" (rw (is_text_array-items vs, h e) refl)
  | inr e ↦ false_keeps (is_spec s) (is_spec (put s "hba_rules" (arr (items vs)))) e
]

kept_same : (b : Bool) → kept b b ≡ true
unfolding kept
kept_same b = ground arith

is_object-put : (b : Value) (k : String) (w : Value) → is_object (put b k w) ≡ true
unfolding put
is_object-put b k w = refl

-- A write of a property of a backup whose sections are there.
put_sections :
    (b : Value) (k : String) (w : Value)
    → has_sections b ≡ true
    → (if k == "physical" || k == "logical" || k == "retention" then is_object w else true) ≡ true
    → has_sections (put b k w) ≡ true
unfolding has_sections
put_sections b k w h g =
    rw
      (
        is_object-put b k w,
        prop-put b k "physical" w,
        prop-put b k "logical" w,
        prop-put b k "retention" w,
      )
      (ground arith)

put_in_sections :
    (b : Value) (k j : String) (v : Value)
    → has_sections b ≡ true
    → has_sections (put_in b k j v) ≡ true
unfolding put_in put
put_in_sections b k j v h = put_sections b k _ h (ground arith)

-- What `s.backup || emptyBackup()` gives has its sections.
or_empty_sections : (b : Value) → is_backup b ≡ true → has_sections (or_else b empty_backup) ≡ true
unfolding is_backup has_sections empty_backup prop get
or_empty_sections undefined h = refl
or_empty_sections null h = refl
or_empty_sections (obj fs) h = h
or_empty_sections (bool c) h = absurd (cc h)
or_empty_sections (num n) h = absurd (cc h)
or_empty_sections (str t) h = absurd (cc h)
or_empty_sections (arr vs) h = absurd (cc h)

backup_of : (s : Value) → is_spec s ≡ true → is_backup (prop s "backup") ≡ true
unfolding is_spec
backup_of s h = ground arith

sections_is_backup : (b : Value) → has_sections b ≡ true → is_backup b ≡ true
unfolding is_backup
sections_is_backup b h = ground arith

-- A change of the backup that keeps its sections.
backup_kept :
    (s : Value) (fn : Value → Value)
    → ((b : Value) → has_sections b ≡ true → has_sections (fn b) ≡ true)
    → kept (is_spec s) (is_spec (set_backup fn s)) ≡ true
unfolding set_backup fits
backup_kept s fn h = elim (Bool-cases (is_spec s)) [
  | inl e ↦
      is_spec-put s (fn (or_else (prop s "backup") empty_backup)) "backup"
        (rw (sections_is_backup _ (h _ (or_empty_sections (prop s "backup") (backup_of s e)))) refl)
  | inr e ↦ false_keeps (is_spec s) (is_spec (set_backup fn s)) e
]

toggle-kept : (drawn s : Value) → kept (is_spec s) (is_spec (toggle drawn s)) ≡ true
unfolding toggle fits empty_backup is_backup has_sections prop get
toggle-kept drawn s = elim (Bool-cases (is_enabled (prop drawn "backup"))) [
  | inl on ↦ rw on (is_spec-put s null "backup" refl)
  | inr off ↦ rw off (is_spec-put s empty_backup "backup" refl)
]

apply_edit-kept : (e : SpecEdit) (s : Value) → kept (is_spec s) (is_spec (apply_edit e s)) ≡ true
unfolding apply_edit set_pg_param remove_pg_param set_hba_field add_hba_rule remove_hba_rule
    choose_version choose_wal put_in fits put set_part
apply_edit-kept (set_param k v) s = is_spec-put s _ "pg_params" refl
apply_edit-kept (reset_param k) s = is_spec-put s _ "pg_params" refl
apply_edit-kept (edit_rule i c t) s =
    elim (Bool-cases (ltb i (length (list_of (prop s "hba_rules"))))) [
      | inl shown ↦ rw shown (
          rules_kept s (edit_rules i c t (list_of (prop s "hba_rules")))
            (λ e. edit_rules-texts i c t (list_of (prop s "hba_rules")) shown (rules_texts s e)))
      | inr hidden ↦ rw hidden (kept_same (is_spec s))
    ]
apply_edit-kept add_rule s =
    rules_kept s _ (λ e. append-texts _ (list_of (prop s "hba_rules")) (rules_texts s e))
apply_edit-kept (remove_rule i) s =
    rules_kept s _ (λ e. drop_at-texts i (list_of (prop s "hba_rules")) (rules_texts s e))
apply_edit-kept (pick_version t) s = is_spec-put s _ "postgres" refl
apply_edit-kept (pick_wal true) s = is_spec-put s _ "wal_storage" refl
apply_edit-kept (pick_wal false) s = is_spec-put s _ "wal_storage" refl
apply_edit-kept (write_replicas n) s = is_spec-put s _ "replicas" refl
apply_edit-kept (write_protection c) s = is_spec-put s _ "deletion_protection" refl
apply_edit-kept (switch_backup drawn) s = toggle-kept drawn s
apply_edit-kept (pick_store t) s =
    backup_kept s (λ b. put b "store_id" (or_else (str t) null))
      (λ b h. put_sections b "store_id" (or_else (str t) null) h refl)
apply_edit-kept (write_backup k j v) s =
    backup_kept s (λ b. put_in b k j v) (λ b h. put_in_sections b k j v h)
apply_edit-kept (write_storage j v) s = is_spec-put s _ "storage" refl
apply_edit-kept (write_wal j v) s = is_spec-put s _ "wal_storage" refl
apply_edit-kept (write_resources j v) s = is_spec-put s _ "resources" refl
apply_edit-kept (write_postgres j v) s = is_spec-put s _ "postgres" refl
apply_edit-kept (write_sentinel j v) s = is_spec-put s _ "sentinel" refl

true_keeps : (b c : Bool) → kept b c ≡ true → b ≡ true → c ≡ true
unfolding kept
true_keeps b c h e = ground arith

-- Any updates of a spec by the tabs leave a spec of the shape that the form reads, if they start from
-- one: the sections are objects, those for volumes of the log, for failover and for backups may be
-- missing, and the rules are texts.
pub apply_edits-is_spec :
    (es : List SpecEdit) (s : Value) → is_spec s ≡ true → is_spec (apply_edits es s) ≡ true
unfolding apply_edits
apply_edits-is_spec [] s h = h
apply_edits-is_spec (e ∷ es) s h =
    apply_edits-is_spec es (apply_edit e s)
      (true_keeps (is_spec s) (is_spec (apply_edit e s)) (apply_edit-kept e s) h)

-- ===== src/Profiles/Spec/Laws.antt =====
-- Which writes keep a spec in the shape that the form relies on.
use pg_swarm.Base.{
  String, ◌≡◌, refl, Bool, true, false, List, ◌==◌, ◌&&◌, all, arith, if◌then◌else◌,
}
use pg_swarm.Js.{Value, arr}
use pg_swarm.Js.Props.{prop, put, prop-put, is_object, items, of_items-items}
use pg_swarm.Profiles.Spec.{is_text, is_text_array, is_backup, is_section, is_spec}

-- If the first test holds, so does the second.
unfoldable pub kept : Bool → Bool → Bool
kept b c = if b then c else true

kept_and : (a b c d : Bool) → kept a b ≡ true → kept c d ≡ true → kept (a && c) (b && d) ≡ true
unfolding kept
kept_and a b c d h k = ground arith

kept_if :
    (f : Value → Bool) (c : Bool) (w v : Value)
    → (if c then f w else true) ≡ true
    → kept (f v) (f (if c then w else v)) ≡ true
unfolding kept
kept_if f true w v h = rw h (ground arith)
kept_if f false w v h = ground arith

-- What the value of a property has to be.
unfoldable pub fits : String → Value → Bool
fits k w =
    (if k == "postgres" then is_object w else true)
    && (if k == "storage" then is_object w else true)
    && (if k == "resources" then is_object w else true)
    && (if k == "pg_params" then is_object w else true)
    && (if k == "hba_rules" then is_text_array w else true)
    && (if k == "backup" then is_backup w else true)
    && (if k == "wal_storage" then is_section w else true)
    && (if k == "sentinel" then is_section w else true)

all_eight :
    (a b c d e f g i : Bool)
    → (a && b && c && d && e && f && g && i) ≡ true
    → (a ≡ true)
      × (b ≡ true)
      × (c ≡ true)
      × (d ≡ true)
      × (e ≡ true)
      × (f ≡ true)
      × (g ≡ true)
      × (i ≡ true)
all_eight a b c d e f g i h = ground arith

-- A write of a value that fits keeps the shape.
pub is_spec-put :
    (s w : Value) (k : String) → fits k w ≡ true → kept (is_spec s) (is_spec (put s k w)) ≡ true
unfolding is_spec fits
is_spec-put s w k h =
    let (a, b, c, d, e, f, g, i) = all_eight _ _ _ _ _ _ _ _ h in
    rw
      (
        prop-put s k "postgres" w,
        prop-put s k "storage" w,
        prop-put s k "resources" w,
        prop-put s k "pg_params" w,
        prop-put s k "hba_rules" w,
        prop-put s k "backup" w,
        prop-put s k "wal_storage" w,
        prop-put s k "sentinel" w,
      )
      (kept_and _ _ _ _
        (kept_and _ _ _ _
          (kept_and _ _ _ _
            (kept_and _ _ _ _
              (kept_and _ _ _ _
                (kept_and _ _ _ _
                  (kept_and _ _ _ _ (kept_if is_object (k == "postgres") w (prop s "postgres") a)
                    (kept_if is_object (k == "storage") w (prop s "storage") b))
                  (kept_if is_object (k == "resources") w (prop s "resources") c))
                (kept_if is_object (k == "pg_params") w (prop s "pg_params") d))
              (kept_if is_text_array (k == "hba_rules") w (prop s "hba_rules") e))
            (kept_if is_backup (k == "backup") w (prop s "backup") f))
          (kept_if is_section (k == "wal_storage") w (prop s "wal_storage") g))
        (kept_if is_section (k == "sentinel") w (prop s "sentinel") i))

-- An array of texts.
pub is_text_array-items : (vs : List Value) → is_text_array (arr (items vs)) ≡ all is_text vs
is_text_array-items vs = rw (of_items-items vs) refl

-- ===== src/Profiles/Page/Laws.antt =====
-- The dialog that deletes a profile offers to do so for unused profiles only.
use pg_swarm.Base.{
  ℕ, ◌≡◌, refl, Bool, true, false, not, List, [], ◌∷◌, filter, any, length, eqb, ltb, arith,
  Bool-cases, inl, inr,
}
use pg_swarm.Js.{truthy, Object, get, strict_eq}
use pg_swarm.View.{View, buttons, buttons-child}
use pg_swarm.Profiles.Page.{Act, update, do_clone, confirm_delete, cluster_count_for_profile}
use pg_swarm.Profiles.Page.Dialogs.{delete_dialog, delete_body}

abbrev pub deletes : View Act × Act → Bool
deletes (label, confirm_delete) = true
deletes (label, do_clone) = false
deletes (label, update f) = false

count_none : (p : Object → Bool) (xs : List Object) → eqb (length (filter p xs)) 0 ≡ not (any p xs)
count_none p [] = refl
count_none p (x ∷ xs) = elim (Bool-cases (p x)) [
  | inl h ↦ rw h (ground arith)
  | inr h ↦ rw h (count_none p xs)
]

buttons-body : (n : ℕ) (target : Object) → buttons (delete_body n target) ≡ []
unfolding delete_body
buttons-body n target = elim (Bool-cases (ltb 0 n)) [
  | inl h ↦ rw (h, buttons-child (get target "name")) refl
  | inr h ↦ elim (Bool-cases (truthy (get target "description"))) [
    | inl d ↦
        rw (h, buttons-child (get target "name"), d, buttons-child (get target "description")) refl
    | inr d ↦ rw (h, buttons-child (get target "name"), d) refl
  ]
]

-- The dialog for a profile has a button that starts the deletion exactly if no cluster has the
-- profile's id as its `profile_id`.
pub delete_dialog-deletes :
    (clusters : List Object) (target : Object)
    → any deletes (buttons (delete_dialog clusters target))
      ≡ not (any (λ c. strict_eq (get c "profile_id") (get target "id")) clusters)
unfolding delete_dialog cluster_count_for_profile
delete_dialog-deletes clusters target =
    let n = cluster_count_for_profile clusters (get target "id") in
    rw
      (
        buttons-body n target,
        count_none (λ c. strict_eq (get c "profile_id") (get target "id")) clusters,
      )
      (elim (Bool-cases (any (λ c. strict_eq (get c "profile_id") (get target "id")) clusters)) [
        | inl h ↦ rw h refl
        | inr h ↦ rw h refl
      ])

-- ===== src/Pages/Logs/Laws.antt =====
-- The buffer holds the last entries, and the filter is ordered.
use pg_swarm.Base.{
  ℕ, zero, suc, ◌+◌, ◌-◌, ◌≤◌, ◌≡◌, refl, sym, ap, ◌∙◌, false, not, List, [], ◌∷◌, ◌++◌, arith,
  append_assoc, append-nil, length, drop, filter, any, ltb, eqb, length-append, length-drop,
  any-append, Bool-cases, inl, inr, if◌then◌else◌,
}
use pg_swarm.Js.{Object}
use pg_swarm.Pages.Logs.{max_local, push_entry, push_all, has_index, toggle_select}

-- The last `n` elements, all if there are no more.
abbrev pub last_of : ℕ → List Object → List Object
last_of n xs = drop (length xs - n) xs

drop-zero : (xs : List Object) → drop 0 xs ≡ xs
drop-zero [] = refl
drop-zero (x ∷ xs) = refl

drop-drop_append :
    (n : ℕ) (xs : List Object) (e : Object)
    → n ≤ length xs
    → drop n (xs ++ e ∷ []) ≡ drop n xs ++ e ∷ []
drop-drop_append zero xs e h = drop-zero (xs ++ e ∷ []) ∙ rw (drop-zero xs) refl
drop-drop_append (suc n) [] e h = absurd (omega arith)
drop-drop_append (suc n) (x ∷ xs) e h = drop-drop_append n xs e (omega arith)

drop-drop : (m n : ℕ) (xs : List Object) → drop m (drop n xs) ≡ drop (n + m) xs
drop-drop m zero xs = ap (λ i. drop i xs) (let e : m ≡ 0 + m = omega arith in e)
drop-drop zero (suc n) [] =
    drop-zero [] ∙ ap (λ i. drop i []) (let e : suc n ≡ suc n + 0 = omega arith in e)
drop-drop (suc m) (suc n) [] =
    ap (λ i. drop i []) (let e : suc (n + suc m) ≡ suc n + suc m = omega arith in e)
drop-drop m (suc n) (x ∷ xs) =
    drop-drop m n xs
    ∙ ap (λ i. drop i (x ∷ xs)) (let e : suc (n + m) ≡ suc n + m = omega arith in e)

-- One entry: with or without the test, the buffer is cut to its last entries.
push_entry-cut :
    (prev : List Object) (e : Object) → push_entry prev e ≡ last_of max_local (prev ++ e ∷ [])
unfolding push_entry
push_entry-cut prev e = elim (Bool-cases (ltb max_local (length (prev ++ e ∷ [])))) [
  | inl over ↦ rw over refl
  | inr fits ↦
      let none_cut : 0 ≡ length (prev ++ e ∷ []) - max_local = ground arith in
      rw fits (sym (drop-zero (prev ++ e ∷ [])) ∙ ap (λ i. drop i (prev ++ e ∷ [])) none_cut)
]

push_entry-last_of :
    (xs : List Object) (e : Object)
    → push_entry (last_of max_local xs) e ≡ last_of max_local (xs ++ e ∷ [])
push_entry-last_of xs e =
    let k = length xs - max_local in
    let all = xs ++ e ∷ [] in
    let below : k ≤ length xs = omega arith in
    let kept : drop k xs ++ e ∷ [] ≡ drop k all = sym (drop-drop_append k xs e below) in
    let sum : k + (length (drop k all) - max_local) ≡ length all - max_local =
      omega (arith, length-drop k all, length-append xs (e ∷ [])) in
    push_entry-cut (drop k xs) e
    ∙ (ap (λ next. drop (length next - max_local) next) kept
        ∙ (drop-drop (length (drop k all) - max_local) k all ∙ ap (λ i. drop i all) sum))

push_all-last_of :
    (xs es : List Object) → push_all (last_of max_local xs) es ≡ last_of max_local (xs ++ es)
unfolding push_all
push_all-last_of xs [] = ap (last_of max_local) (sym (append-nil xs))
push_all-last_of xs (e ∷ es) =
    ap (λ logs. push_all logs es) (push_entry-last_of xs e)
    ∙ (push_all-last_of (xs ++ e ∷ []) es ∙ ap (last_of max_local) (append_assoc xs (e ∷ []) es))

-- A buffer that has at most 5000 entries holds, after any entries of the stream, the last 5000 of
-- its old and new entries in their order, all of them if there are no more, and so again at most
-- 5000.
pub push_all_keeps_last :
    (logs es : List Object)
    → length logs ≤ max_local
    → (push_all logs es ≡ last_of max_local (logs ++ es)) × (length (push_all logs es) ≤ max_local)
push_all_keeps_last logs es h =
    let start : logs ≡ last_of max_local logs =
      sym (drop-zero logs)
      ∙ ap (λ i. drop i logs) (let e : 0 ≡ length logs - max_local = omega arith in e) in
    let held = ap (λ xs. push_all xs es) start ∙ push_all-last_of logs es in
    (
      held,
      omega (arith, ap length held, length-drop (length (logs ++ es) - max_local) (logs ++ es)),
    )

has_index-filter :
    (i j : ℕ) (selected : List ℕ)
    → any (eqb j) (filter (λ k. not (eqb i k)) selected)
      ≡ (if eqb i j then false else any (eqb j) selected)
has_index-filter i j [] = ground arith
has_index-filter i j (k ∷ selected) = ground (arith, has_index-filter i j selected)

-- Toggling an entry turns its own selection and no other.
pub toggle_select-has_index :
    (i j : ℕ) (selected : List ℕ)
    → has_index j (toggle_select i selected)
      ≡ (if eqb i j then not (has_index i selected) else has_index j selected)
unfolding has_index toggle_select
toggle_select-has_index i j selected = elim (Bool-cases (any (eqb i) selected)) [
  | inl chosen ↦ rw chosen (has_index-filter i j selected)
  | inr free ↦ rw free (ground (arith, any-append (eqb j) selected (i ∷ []), free))
]

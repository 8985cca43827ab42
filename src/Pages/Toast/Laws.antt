-- ===== src/Pages/Toast/Laws.antt =====
-- Every toast has its timer, and goes with it.
use pg_swarm.Base.{
  ℕ, suc, ◌≡◌, refl, ap, subst, ◌∙◌, String, Bool, true, not, List, [], ◌∷◌, ◌++◌, arith, eqb, leb,
  filter, any, all,
}
use pg_swarm.Pages.Toast.{Toast, Toasts, no_toasts, toast, expire}

-- The states that the provider reaches by showing toasts and by the timers that are pending.
pub data Reaches : Toasts → Type 0 where
  begins : Reaches no_toasts
  shows :
      {s : Toasts} (message : String) (is_error : Bool)
      → Reaches s
      → Reaches (toast message is_error s)
  fires :
      {s : Toasts} (id : ℕ)
      → Reaches s
      → any (λ i. eqb i id) s.timers ≡ true
      → Reaches (expire id s)

abbrev pub ids_of : List Toast → List ℕ
ids_of [] = []
ids_of (t ∷ ts) = t.id ∷ ids_of ts

-- The toasts are those whose timers are pending, in order, and the next id is above all of them.
pub record IsTimed (s : Toasts) : Type 0 where
  pub timed : ids_of s.toasts ≡ s.timers
  pub below : all (λ i. leb i s.next_id) s.timers ≡ true

ids_of-append : (ts : List Toast) (t : Toast) → ids_of (ts ++ t ∷ []) ≡ ids_of ts ++ t.id ∷ []
ids_of-append [] t = refl
ids_of-append (x ∷ ts) t = ap (λ l. x.id ∷ l) (ids_of-append ts t)

ids_of-filter :
    (id : ℕ) (ts : List Toast)
    → ids_of (filter (λ (t : Toast). not (eqb t.id id)) ts)
      ≡ filter (λ i. not (eqb i id)) (ids_of ts)
ids_of-filter id [] = refl
ids_of-filter id (t ∷ ts) = ground (arith, ids_of-filter id ts)

all-append_next :
    (n : ℕ) (is : List ℕ)
    → all (λ i. leb i n) is ≡ true
    → all (λ i. leb i (suc n)) (is ++ suc n ∷ []) ≡ true
all-append_next n [] h = ground arith
all-append_next n (i ∷ is) h = ground (arith, all-append_next n is)

all-filter :
    (n id : ℕ) (is : List ℕ)
    → all (λ i. leb i n) is ≡ true
    → all (λ i. leb i n) (filter (λ i. not (eqb i id)) is) ≡ true
all-filter n id [] h = refl
all-filter n id (i ∷ is) h = ground (arith, all-filter n id is)

-- In every state that the provider reaches the toasts shown are those whose timers are pending, in
-- their order, and the next id is above all of theirs.
pub Reaches-IsTimed : {s : Toasts} → Reaches s → IsTimed s
unfolding toast expire
Reaches-IsTimed begins = record { timed = refl; below = refl }
Reaches-IsTimed (shows {s} message is_error r) =
    let k = Reaches-IsTimed r in
    record {
      timed = ids_of-append s.toasts _ ∙ ap (λ l. l ++ suc s.next_id ∷ []) k.timed;
      below = all-append_next s.next_id s.timers k.below;
    }
Reaches-IsTimed (fires {s} id r pending) =
    let k = Reaches-IsTimed r in
    record {
      timed = ids_of-filter id s.toasts ∙ ap (filter (λ i. not (eqb i id))) k.timed;
      below = all-filter s.next_id id s.timers k.below;
    }

-- The timers that are pending, one after the other.
unfoldable pub expire_all : List ℕ → Toasts → Toasts
expire_all [] s = s
expire_all (id ∷ ids) s = expire_all ids (expire id s)

abbrev is_among : List ℕ → Toast → Bool
is_among ids t = any (λ i. eqb t.id i) ids

among_rest :
    (id : ℕ) (ids : List ℕ) (ts : List Toast)
    → all (is_among (id ∷ ids)) ts ≡ true
    → all (is_among ids) (filter (λ (t : Toast). not (eqb t.id id)) ts) ≡ true
among_rest id ids [] h = refl
among_rest id ids (t ∷ ts) h = ground (arith, among_rest id ids ts)

among_more :
    (id : ℕ) (ids : List ℕ) (ts : List Toast)
    → all (is_among ids) ts ≡ true
    → all (is_among (id ∷ ids)) ts ≡ true
among_more id ids [] h = refl
among_more id ids (t ∷ ts) h = ground (arith, among_more id ids ts)

among_own : (ts : List Toast) → all (is_among (ids_of ts)) ts ≡ true
among_own [] = refl
among_own (t ∷ ts) = ground (arith, among_more t.id (ids_of ts) ts (among_own ts))

among_none : (ts : List Toast) → all (is_among []) ts ≡ true → ts ≡ []
among_none [] h = refl
among_none (t ∷ ts) h = cc

expire_all-toasts :
    (ids : List ℕ) (s : Toasts)
    → all (is_among ids) s.toasts ≡ true
    → (expire_all ids s).toasts ≡ []
unfolding expire_all expire
expire_all-toasts [] s h = among_none s.toasts h
expire_all-toasts (id ∷ ids) s h =
    expire_all-toasts ids (expire id s) (among_rest id ids s.toasts h)

-- From every state that the provider reaches, once the pending timers have fired no toast is
-- shown.
pub toasts_vanish : {s : Toasts} → Reaches s → (expire_all s.timers s).toasts ≡ []
toasts_vanish {s} r = expire_all-toasts s.timers s (
    subst (λ ids. all (is_among ids) s.toasts ≡ true) (Reaches-IsTimed r).timed
      (among_own s.toasts))

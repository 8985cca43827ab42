-- ===== src/Pages/Theme/Laws.antt =====
-- The theme is always a valid one, and survives a reload.
use pg_swarm.Base.{
  String, ◌≡◌, refl, sym, true, false, Option, none, some, List, [], ◌∷◌, ◌==◌, ◌&&◌, if◌then◌else◌,
  arith, eq_iff, Bool-cases, inl, inr,
}
use pg_swarm.Pages.Theme.{
  is_valid, Browser, get_initial, Themed, opened_page, set_theme, next_theme, cycle_theme,
  valid_or_system, store,
}

-- What the page's user does.
pub data Act : Type 0 where
  choose : String → Act
  cycle : Act

unfoldable pub act : Act → Themed → Themed
act (choose t) s = set_theme t s
act cycle s = cycle_theme s

unfoldable pub act_all : List Act → Themed → Themed
unfolding act
act_all [] s = s
act_all (a ∷ acts) s = act_all acts (act a s)

-- The theme is valid, and if the storage works it is the one that a reload finds.
pub record IsKept (s : Themed) : Type 0 where
  pub is_one : is_valid s.theme ≡ true
  pub reloads :
      (if s.browser.readable && s.browser.writable then get_initial s.browser else s.theme)
      ≡ s.theme

system_is_valid : is_valid "system" ≡ true
unfolding is_valid
system_is_valid = refl

valid_or_system-is_valid : (t : Option String) → is_valid (valid_or_system t) ≡ true
valid_or_system-is_valid none = system_is_valid
valid_or_system-is_valid (some t) = elim (Bool-cases (is_valid t)) [
  | inl ok ↦ rw ok ok
  | inr bad ↦ rw bad system_is_valid
]

get_initial-is_valid : (b : Browser) → is_valid (get_initial b) ≡ true
unfolding get_initial
get_initial-is_valid b = elim (Bool-cases b.readable) [
  | inl works ↦ rw works (valid_or_system-is_valid b.stored)
  | inr throws ↦ rw throws system_is_valid
]

opened_page-IsKept : (b : Browser) → IsKept (opened_page b)
opened_page-IsKept b = record { is_one = get_initial-is_valid b; reloads = ground arith }

set_theme-IsKept : (t : String) (s : Themed) → IsKept s → IsKept (set_theme t s)
unfolding set_theme store get_initial
set_theme-IsKept t s k = elim (Bool-cases (is_valid t)) [
  | inl ok ↦ rw ok (record { is_one = ok; reloads = ground (arith, k.reloads) })
  | inr bad ↦ rw bad k
]

act-IsKept : (a : Act) (s : Themed) → IsKept s → IsKept (act a s)
unfolding act cycle_theme
act-IsKept (choose t) s k = set_theme-IsKept t s k
act-IsKept cycle s k = set_theme-IsKept (next_theme s.theme) s k

act_all-IsKept : (acts : List Act) (s : Themed) → IsKept s → IsKept (act_all acts s)
unfolding act_all
act_all-IsKept [] s k = k
act_all-IsKept (a ∷ acts) s k = act_all-IsKept acts (act a s) (act-IsKept a s k)

-- From the first render on, whatever the storage holds and whatever the user chooses, the theme is
-- one of the three valid ones, and where the storage can be read and written a reload finds it.
pub opened_page-IsKept_always :
    (b : Browser) (acts : List Act) → IsKept (act_all acts (opened_page b))
opened_page-IsKept_always b acts = act_all-IsKept acts (opened_page b) (opened_page-IsKept b)

-- Three clicks on the button of the header lead from a valid theme through both others back to it.
pub cycle_theme_thrice :
    (s : Themed)
    → is_valid s.theme ≡ true
    → ((cycle_theme (cycle_theme (cycle_theme s))).theme ≡ s.theme)
      × (((cycle_theme s).theme == s.theme) ≡ false)
      × (((cycle_theme (cycle_theme s)).theme == s.theme) ≡ false)
unfolding cycle_theme set_theme next_theme is_valid
cycle_theme_thrice s h = elim (Bool-cases ("light" == s.theme)) [
  | inl light ↦ rw (sym ((eq_iff "light" s.theme).0 light)) (refl, refl, refl)
  | inr not_light ↦ elim (Bool-cases ("dark" == s.theme)) [
    | inl dark ↦ rw (sym ((eq_iff "dark" s.theme).0 dark)) (refl, refl, refl)
    | inr not_dark ↦ elim (Bool-cases ("system" == s.theme)) [
      | inl system ↦ rw (sym ((eq_iff "system" s.theme).0 system)) (refl, refl, refl)
      | inr other ↦ absurd (cc (rw (not_light, not_dark, other) at h))
    ]
  ]
]

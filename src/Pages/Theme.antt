-- ===== src/Pages/Theme.antt =====
-- dashboard/src/context/ThemeContext.jsx with the button of dashboard/src/components/MiniHeader.jsx.
pub mod Laws
use pg_swarm.Base.{
  String, Bool, true, false, Option, none, some, List, [], ◌∷◌, ◌==◌, ◌||◌, if◌then◌else◌, any,
}

-- `VALID`
abbrev pub valid : List String
valid = "light" ∷ "dark" ∷ "system" ∷ []

-- `VALID.includes(t)`
unfoldable pub is_valid : String → Bool
is_valid t = any (λ v. v == t) valid

-- The stored text, none for null, and whether the storage throws, for reading and writing; `dark` is
-- what the system prefers.
pub record Browser : Type 0 where
  pub stored : Option String
  pub readable : Bool
  pub writable : Bool
  pub prefers_dark : Bool

abbrev valid_or_system : Option String → String
valid_or_system none = "system"
valid_or_system (some t) = if is_valid t then t else "system"

-- `getInitial`
unfoldable pub get_initial : Browser → String
unfolding is_valid
get_initial b = if b.readable then valid_or_system b.stored else "system"

-- `resolveTheme`
unfoldable pub resolve_theme : Browser → String → String
resolve_theme b pref =
    if pref == "light" || pref == "dark" then pref else if b.prefers_dark then "dark" else "light"

pub record Themed : Type 0 where
  pub theme : String
  pub browser : Browser

-- The first render.
abbrev pub opened_page : Browser → Themed
opened_page b = record { theme = get_initial b; browser = b }

store : String → Browser → Browser
store t b = if b.writable then record b { stored = some t } else b

-- `setTheme`
unfoldable pub set_theme : String → Themed → Themed
unfolding is_valid store
set_theme next s =
    if is_valid next then record { theme = next; browser = store next s.browser } else s

-- `THEME_CYCLE[(idx + 1) % THEME_CYCLE.length]`; a text that is not in the cycle has index -1
unfoldable pub next_theme : String → String
next_theme t = if t == "light" then "dark" else if t == "dark" then "system" else "light"

-- `cycleTheme`
unfoldable pub cycle_theme : Themed → Themed
unfolding set_theme next_theme
cycle_theme s = set_theme (next_theme s.theme) s

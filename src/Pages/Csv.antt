-- ===== src/Pages/Csv.antt =====
-- `escapeCSV` of dashboard/src/pages/SatelliteLogs.jsx.
pub mod Laws
use Prim.Native.Char.{Char, code}
use Prim.Native.String
use pg_swarm.Base.{ℕ, String, Bool, true, false, eqb, ◌||◌, if◌then◌else◌}
use pg_swarm.Js.{Value, undefined, null}
use pg_swarm.Js.Text.{◌⧺◌, to_text}

-- `s.includes(c)` for one character
unfoldable pub has_char : ℕ → String → Bool
has_char k String.[] = false
has_char k (String.◌∷◌ c s) = eqb (code c) k || has_char k s

-- `s.replace(/"/g, '""')`
unfoldable pub double_quotes : String → String
double_quotes String.[] = ""
double_quotes (String.◌∷◌ c s) =
    let rest = double_quotes s in
    if eqb (code c) b'"' then String.◌∷◌ c (String.◌∷◌ c rest) else String.◌∷◌ c rest

-- The last five lines of `escapeCSV`.
unfoldable pub escape_text : String → String
unfolding has_char double_quotes
escape_text s =
    if has_char b',' s || (has_char b'"' s || has_char b'\n' s)
    then "\"" ⧺ (double_quotes s ⧺ "\"")
    else s

-- `escapeCSV`
unfoldable pub escape_csv : Value → String
unfolding escape_text
escape_csv undefined = ""
escape_csv null = ""
escape_csv v = escape_text (to_text v)

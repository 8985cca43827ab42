-- ===== src/Profiles/Cron.antt =====
-- The reading of cron expressions in dashboard/src/pages/Profiles.jsx: `isValidCron`, `cronStep` and
-- `cronToText`.
use Prim.Native.Char.{code}
use pg_swarm.Base.{
  ℕ, String, Bool, true, false, not, none, some, List, [], ◌∷◌, ◌==◌, ◌&&◌, ◌||◌, eqb, ltb,
  if◌then◌else◌, length, get_elem?,
}
use pg_swarm.Js.Text.{◌⧺◌, show}
use pg_swarm.Js.Words.{is_empty, is_digit, words, runs, number_from, starts_with}

abbrev pub all_digits : String → Bool
all_digits String.[] = true
all_digits (String.◌∷◌ c s) = is_digit c && all_digits s

-- `/^\d+$/.test(s)`
abbrev pub is_number : String → Bool
is_number s = not (is_empty s) && all_digits s

-- `isValidCron`
unfoldable pub is_valid_cron : String → Bool
unfolding runs
is_valid_cron s = is_empty s || eqb (length (runs s)) 5

-- the text after a run of digits
unfoldable pub after_digits : String → String
unfolding is_digit
after_digits String.[] = ""
after_digits (String.◌∷◌ c s) =
    let rest = after_digits s in if is_digit c then rest else String.◌∷◌ c s

-- the number after a slash, if only digits follow it
abbrev step_after : String → ℕ
step_after String.[] = 0
step_after (String.◌∷◌ c s) = if eqb (code c) b'/' && is_number s then number_from 0 s else 0

abbrev starts_digit : String → Bool
starts_digit String.[] = false
starts_digit (String.◌∷◌ c s) = is_digit c

abbrev tail_of : String → String
tail_of String.[] = ""
tail_of (String.◌∷◌ c s) = s

-- `cronStep`
unfoldable pub cron_step : String → ℕ
unfolding is_digit number_from after_digits starts_with
cron_step field =
    if starts_with field "*"
    then step_after (tail_of field)
    else if starts_digit field
    then step_after (after_digits field)
    else 0

-- `s.padStart(2, '0')`
abbrev pub pad_two : String → String
pad_two String.[] = "00"
pad_two (String.◌∷◌ c String.[]) = "0" ⧺ String.◌∷◌ c ""
pad_two s = s

abbrev qualifier : String → String
qualifier field = if starts_with field "*" then " after start" else " on the clock"

abbrev days : List String
days = "Sun" ∷ "Mon" ∷ "Tue" ∷ "Wed" ∷ "Thu" ∷ "Fri" ∷ "Sat" ∷ []

-- `days[parseInt(dow)] || dow`
unfoldable pub day_name : String → String
unfolding number_from
day_name dow = elim (get_elem? days (number_from 0 dow)) [ none ↦ dow | some d ↦ d ]

-- the suffix of a day of the month
unfoldable pub suffix : ℕ → String
suffix d =
    if eqb d 1 || eqb d 21 || eqb d 31
    then "st"
    else if eqb d 2 || eqb d 22
    then "nd"
    else if eqb d 3 || eqb d 23
    then "rd"
    else "th"

-- The text for the five fields.
unfoldable pub fields_text : String → String → String → String → String → String
unfolding cron_step is_digit starts_with day_name suffix number_from
fields_text min hr dom mon dow =
    let min_step = cron_step min in
    let hr_step = cron_step hr in
    let every_day = dom == "*" && mon == "*" && dow == "*" in
    let d = number_from 0 dom in
    let at = pad_two hr ⧺ (":" ⧺ pad_two min) in
    if ltb 0 min_step && hr == "*" && every_day
    then (if eqb min_step 1
        then "Every minute"
        else "Every " ⧺ (show min_step ⧺ (" minutes" ⧺ qualifier min)))
    else if is_number min && ltb 0 hr_step && every_day
    then (if eqb hr_step 1
        then "Every hour"
        else "Every " ⧺ (show hr_step ⧺ (" hours" ⧺ qualifier hr)))
    else if is_number min && hr == "*" && every_day
    then "Hourly at :" ⧺ pad_two min
    else if is_number min && is_number hr && every_day
    then "Daily at " ⧺ at
    else if is_number min && is_number hr && dom == "*" && mon == "*" && is_number dow
    then day_name dow ⧺ (" at " ⧺ at)
    else if is_number min && is_number hr && is_number dom && mon == "*" && dow == "*"
    then "Monthly on " ⧺ (show d ⧺ (suffix d ⧺ (" at " ⧺ at)))
    else ""

abbrev of_fields : List String → String
of_fields (min ∷ hr ∷ dom ∷ mon ∷ dow ∷ []) = fields_text min hr dom mon dow
of_fields _ = ""

-- `cronToText`
unfoldable pub cron_to_text : String → String
unfolding is_valid_cron fields_text words
cron_to_text expr = if is_empty expr || not (is_valid_cron expr) then "" else of_fields (words expr)

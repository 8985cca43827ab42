-- ===== src/Profiles/History.antt =====
-- The version history of dashboard/src/pages/Profiles.jsx: `parseSummaryChanges`, with its regular
-- expressions as matchers that try their choices in the order of JavaScript, and
-- `VersionHistoryList`. `locale_time` is `new Date(v).toLocaleString()`.
use Prim.Native.Char.{Char, code}
use pg_swarm.Base.{
  ℕ, String, Bool, true, false, not, Option, none, some, List, [], ◌∷◌, ◌==◌, ◌&&◌, ◌||◌, eqb,
  if◌then◌else◌, map, ltb, length,
}
use pg_swarm.Js.{Value, str, Object, get, or_else}
use pg_swarm.Js.Text.{◌⧺◌}
use pg_swarm.Js.Words.{is_space, is_digit, is_empty, starts_with, onto_first}
use pg_swarm.View.{View, text, ◌&◌, el, when, each, each_at, child}

pub record Summary : Type 0 where
  pub param : String
  pub old_val : String
  pub new_val : String
  pub strategy : String

-- `.` does not match the ends of lines
abbrev ends_line : Char → Bool
ends_line c = eqb (code c) 10 || eqb (code c) 13 || eqb (code c) 8232 || eqb (code c) 8233

-- `(.+?)` and what follows: the shortest text first, after the text taken so far
unfoldable pub lazily : (String → String → Option Summary) → String → String → Option Summary
lazily k taken String.[] = none
lazily k taken (String.◌∷◌ c s) =
    let more = taken ⧺ String.◌∷◌ c "" in
    let later = lazily k more s in
    if ends_line c then none else elim (k more s) [ none ↦ later | some r ↦ some r ]

-- `\s*` and what follows: the longest run first
unfoldable pub spaces : (String → Option Summary) → String → Option Summary
unfolding is_space
spaces k String.[] = k ""
spaces k (String.◌∷◌ c s) =
    let deeper = if is_space c then spaces k s else none in
    elim deeper [ none ↦ k (String.◌∷◌ c s) | some r ↦ some r ]

-- one character and what follows
abbrev literal : ℕ → (String → Option Summary) → String → Option Summary
literal n k String.[] = none
literal n k (String.◌∷◌ c s) = if eqb (code c) n then k s else none

abbrev at_end : Summary → String → Option Summary
at_end r String.[] = some r
at_end r (String.◌∷◌ c s) = none

abbrev summary_of : String → String → String → String → Summary
summary_of p o n s = record { param = p; old_val = o; new_val = n; strategy = s }

-- `(?:\s*\((.+?)\))?$` after the three texts; without the bracket the strategy is `sighup`
unfoldable pub bracket : String → String → String → String → Option Summary
unfolding spaces lazily
bracket p o n s =
    let bracketed =
      spaces (literal b'(' (lazily (λ t. literal b')' (at_end (summary_of p o n t))) "")) s in
    elim bracketed [ none ↦ at_end (summary_of p o n "sighup") s | some r ↦ some r ]

-- `/^(.+?):\s*(.+?)\s*→\s*(.+?)(?:\s*\((.+?)\))?$/`
unfoldable pub match_change : String → Option Summary
unfolding spaces lazily bracket
match_change s =
    lazily
      (λ p.
        literal b':' (
          spaces
            (lazily (λ o. spaces (literal 8594 (spaces (lazily (λ n. bracket p o n) "")))) "")))
      "" s

-- the text after a prefix that it starts with
unfoldable pub after_prefix : String → String → Option String
after_prefix String.[] s = some s
after_prefix (String.◌∷◌ c p) String.[] = none
after_prefix (String.◌∷◌ c p) (String.◌∷◌ d s) =
    let rest = after_prefix p s in if eqb (code c) (code d) then rest else none

abbrev with_digit : Char → String × String → String × String
with_digit c (ds, s) = (String.◌∷◌ c ds, s)

-- the leading digits, and the text after them
unfoldable pub span_digits : String → String × String
unfolding is_digit
span_digits String.[] = ("", "")
span_digits (String.◌∷◌ c s) =
    let rest = span_digits s in if is_digit c then with_digit c rest else ("", String.◌∷◌ c s)

abbrev scale_of : String → Option String → Option Summary
scale_of way none = none
scale_of way (some s) =
    let (ds, rest) = span_digits s in
    if not (is_empty ds) && rest == " replicas"
    then some (summary_of "replicas" "" ds ("scale " ⧺ way))
    else none

-- `/^scale (up|down) to (\d+) replicas$/`, with the entry made of a match
unfoldable pub match_scale : String → Option Summary
unfolding after_prefix span_digits
match_scale s = elim (scale_of "up" (after_prefix "scale up to " s)) [
  | some r ↦ some r
  | none ↦ scale_of "down" (after_prefix "scale down to " s)
]

-- the entry of one part
unfoldable pub parse_part : String → Summary
unfolding match_scale match_change starts_with
parse_part s = elim (match_scale s) [
  | some r ↦ r
  | none ↦
      if starts_with s "Reverted"
      then summary_of s "" "" "revert"
      else elim (match_change s) [ none ↦ summary_of s "" "" "" | some r ↦ r ]
]

-- `s.split('; ')`, after a semicolon that is still to place or after none
unfoldable pub split_semicolons : Bool → String → List String
split_semicolons false String.[] = "" ∷ []
split_semicolons true String.[] = ";" ∷ []
split_semicolons pending (String.◌∷◌ c s) =
    let is_semicolon = eqb (code c) b';' in
    let rest = split_semicolons is_semicolon s in
    let here = if is_semicolon then rest else onto_first c rest in
    if pending then (if eqb (code c) b' ' then "" ∷ rest else before here) else here
  where
    before : List String → List String
    before [] = []
    before (w ∷ ws) = (";" ⧺ w) ∷ ws

-- `parseSummaryChanges`
unfoldable pub parse_summary_changes : Value → List Summary
unfolding parse_part split_semicolons
parse_summary_changes (str s) =
    if is_empty s || s == "no changes" then [] else map parse_part (split_semicolons false s)
parse_summary_changes _ = []

-- `strategyLabels[strategy]`, with the default for the others: label and colour
unfoldable pub strategy_label : String → String × String
strategy_label s =
    if s == "sighup" || s == "reload"
    then ("sighup", "badge-green")
    else if s == "restart"
    then ("restart", "badge-amber")
    else if s == "full restart"
    then ("full restart", "badge-red")
    else if s == "revert"
    then ("revert", "badge-gray")
    else if s == "scale up"
    then ("scale up", "badge-blue")
    else if s == "scale down"
    then ("scale down", "badge-amber")
    else ((if is_empty s then "-" else s), "badge-gray")

-- `statusColors[status] || 'badge-gray'`
unfoldable pub status_color : Value → String
status_color (str s) =
    if s == "pending"
    then "badge-amber"
    else if s == "applied"
    then "badge-green"
    else if s == "failed"
    then "badge-red"
    else "badge-gray"
status_color _ = "badge-gray"

module _ {ℓ} {A : Type ℓ} where
  abbrev marked : String → View A
  marked s = el "td.mono" (when (not (is_empty s)) (el "span" (text s)))

  -- the row of a change
  unfoldable pub change_row : Summary → View A
  unfolding strategy_label
  change_row ch =
      let st = strategy_label ch.strategy in
      el "tr" (
        el "td.mono" (text ch.param)
        & marked ch.old_val
        & marked ch.new_val
        & el "td" (el ("span.badge " ⧺ st.1) (text st.0)))

  -- the entry of a version at a position of the list
  unfoldable pub version_entry : (Value → String) → ℕ → Object → View A
  unfolding parse_summary_changes status_color change_row
  version_entry locale_time i v =
      let changes = parse_summary_changes (get v "change_summary") in
      el "div.vh-entry" (
        el "div.vh-header" (
          el "span.badge.badge-blue" (text "v" & child (get v "version"))
          & el ("span.badge " ⧺ status_color (get v "apply_status")) (child (get v "apply_status"))
          & when (eqb i 0) (el "span.badge.badge-green" (text "latest"))
          & el "span.muted" (text (locale_time (get v "created_at"))))
        & (if ltb 0 (length changes)
            then el "div.vh-table-wrap" (
                el "table.vh-table" (
                  el "thead" (
                    el "tr" (
                      each (λ s. el "th" (text s))
                        ("Parameter" ∷ "Before" ∷ "After" ∷ "Apply" ∷ [])))
                  & el "tbody" (each change_row changes)))
            else el "div.muted" (child (or_else (get v "change_summary") (str "Initial version")))))

  -- `VersionHistoryList`
  unfoldable pub version_history_list : (Value → String) → List Object → View A
  unfolding version_entry
  version_history_list locale_time [] = el "p.muted" (text "No version history available.")
  version_history_list locale_time (v ∷ vs) =
      el "div.vh-list" (each_at (version_entry locale_time) 0 (v ∷ vs))

-- ===== src/Js/Text.antt =====
-- How JavaScript turns a value into text: `String(v)`, `v + text` and number printing.
use pg_swarm.Base.{ℕ, zero, suc, ◌/◌, ◌%◌, String, true, false, eqb, ltb, if◌then◌else◌}
use pg_swarm.Js.{Value, undefined, null, bool, num, str, arr, obj, Items, nil, cons}
use Prim.Native.String

infixr 65 ◌⧺◌
abbrev pub ◌⧺◌ : String → String → String
s ⧺ t = String.◌++◌ s t

digit_text : ℕ → String
digit_text d =
    if eqb d 0
    then "0"
    else if eqb d 1
    then "1"
    else if eqb d 2
    then "2"
    else if eqb d 3
    then "3"
    else if eqb d 4
    then "4"
    else if eqb d 5
    then "5"
    else if eqb d 6
    then "6"
    else if eqb d 7
    then "7"
    else if eqb d 8
    then "8"
    else "9"

-- the decimal digits of `n`, for a fuel above `n`
show_from : ℕ → ℕ → String
show_from zero n = ""
show_from (suc fuel) n =
    let more = show_from fuel (n / 10) in
    if ltb n 10 then digit_text n else more ⧺ digit_text (n % 10)

-- `String(n)`
unfoldable pub show : ℕ → String
unfolding show_from digit_text
show n = show_from (suc n) n

-- In an array, undefined and null print as nothing.
abbrev within : Value → String → String
within undefined t = ""
within null t = ""
within _ t = t

abbrev comma : Items → String → String
comma nil t = t
comma (cons _ _) t = "," ⧺ t

unfoldable mutual
  -- `String(v)`
  pub to_text : Value → String
  to_text undefined = "undefined"
  to_text null = "null"
  to_text (bool true) = "true"
  to_text (bool false) = "false"
  to_text (num n) = show n
  to_text (str s) = s
  to_text (arr xs) = join_items xs
  to_text (obj fs) = "[object Object]"

  -- `xs.join(',')`
  pub join_items : Items → String
  join_items nil = ""
  join_items (cons v xs) = within v (to_text v) ⧺ comma xs (join_items xs)

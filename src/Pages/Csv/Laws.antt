-- ===== src/Pages/Csv/Laws.antt =====
-- A reader of CSV gets back what was escaped.
use Prim.Native.Char.{Char, code}
use text.Mathlib.TextLemmas.{nil-append, cons-append, append_assoc}
use pg_swarm.Base.{
  String, ◌≡◌, refl, ap, ◌∙◌, Bool, true, false, Option, none, some, arith, eqb, ◌||◌,
  if◌then◌else◌, Bool-cases, inl, inr, not, ◌↔◌, sym, subst,
}
use pg_swarm.Js.Text.{◌⧺◌}
use pg_swarm.Pages.Csv.{has_char, double_quotes, escape_text}

abbrev with_char : Char → Option (String × String) → Option (String × String)
with_char c none = none
with_char c (some (s, rest)) = some (String.◌∷◌ c s, rest)

-- what ends a field: a comma or a line break
abbrev ends_field : Char → Bool
ends_field c = eqb (code c) b',' || eqb (code c) b'\n' || eqb (code c) b'\r'

-- A quoted field after its first quote, and what follows the field; the flag says that a quote has
-- just been read, which ends the field unless another follows.
unfoldable pub read_quoted : Bool → String → Option (String × String)
read_quoted false String.[] = none
read_quoted true String.[] = some ("", "")
read_quoted false (String.◌∷◌ c s) =
    let ended = read_quoted true s in
    let longer = read_quoted false s in if eqb (code c) b'"' then ended else with_char c longer
read_quoted true (String.◌∷◌ c s) =
    let longer = read_quoted false s in
    if eqb (code c) b'"'
    then with_char c longer
    else if ends_field c
    then some ("", String.◌∷◌ c s)
    else none

-- A field without quotes, up to a comma, a line break or the end of the text; a quote in it is an
-- error.
unfoldable pub read_plain : String → Option (String × String)
read_plain String.[] = some ("", "")
read_plain (String.◌∷◌ c s) =
    let longer = read_plain s in
    if ends_field c
    then some ("", String.◌∷◌ c s)
    else if eqb (code c) b'"'
    then none
    else with_char c longer

-- One field and what follows it, for a reader to which a carriage return breaks a line, as a line
-- feed does.
unfoldable pub read_field : String → Option (String × String)
unfolding read_quoted read_plain
read_field String.[] = some ("", "")
read_field (String.◌∷◌ c s) =
    if eqb (code c) b'"' then read_quoted false s else read_plain (String.◌∷◌ c s)

read_quoted-double_quotes :
    (s rest : String)
    → read_quoted false (double_quotes s ⧺ ("\"" ⧺ ("," ⧺ rest))) ≡ some (s, "," ⧺ rest)
unfolding read_quoted double_quotes
read_quoted-double_quotes String.[] rest =
    rw (nil-append, cons-append, nil-append, cons-append, nil-append) refl
read_quoted-double_quotes (String.◌∷◌ c s) rest = elim (Bool-cases (eqb (code c) b'"')) [
  | inl quote ↦
      rw (quote, cons-append, quote, cons-append, quote)
        (ap (with_char c) (read_quoted-double_quotes s rest))
  | inr other ↦ rw (other, cons-append, other) (ap (with_char c) (read_quoted-double_quotes s rest))
]

read_plain_part :
    (s rest : String)
    → (has_char b',' s || has_char b'"' s || has_char b'\n' s) ≡ false
    → has_char b'\r' s ≡ false
    → read_plain (s ⧺ ("," ⧺ rest)) ≡ some (s, "," ⧺ rest)
unfolding read_plain has_char
read_plain_part String.[] rest h g = rw (nil-append, cons-append, nil-append) refl
read_plain_part (String.◌∷◌ c s) rest h g =
    let inner : ends_field c ≡ false = ground arith in
    let unquoted : eqb (code c) b'"' ≡ false = ground arith in
    rw (cons-append, inner, unquoted)
      (ap (with_char c) (read_plain_part s rest (ground arith) (ground arith)))

without_break : Option (String × String) → Bool
without_break none = true
without_break (some (s, rest)) = not (has_char b'\r' s)

without_break-with_char :
    (c : Char) (r : Option (String × String))
    → eqb (code c) b'\r' ≡ false
    → without_break r ≡ true
    → without_break (with_char c r) ≡ true
unfolding without_break has_char
without_break-with_char c none h k = refl
without_break-with_char c (some (s, rest)) h k = ground arith

-- No field without quotes has a carriage return.
read_plain-without_break : (t : String) → without_break (read_plain t) ≡ true
unfolding read_plain without_break has_char
read_plain-without_break String.[] = refl
read_plain-without_break (String.◌∷◌ c s) = elim (Bool-cases (ends_field c)) [
  | inl last ↦ rw last refl
  | inr inner ↦ elim (Bool-cases (eqb (code c) b'"')) [
    | inl quote ↦ rw (inner, quote) refl
    | inr other ↦
        rw (inner, other)
          (without_break-with_char c (read_plain s) (ground arith) (read_plain-without_break s))
  ]
]

read_field_quoted : (t : String) → read_field ("\"" ⧺ t) ≡ read_quoted false t
unfolding read_field
read_field_quoted t = rw (cons-append, nil-append) refl

read_field_plain :
    (s rest : String)
    → has_char b'"' s ≡ false
    → read_field (s ⧺ ("," ⧺ rest)) ≡ read_plain (s ⧺ ("," ⧺ rest))
unfolding read_field has_char
read_field_plain String.[] rest h = rw (nil-append, cons-append, nil-append) refl
read_field_plain (String.◌∷◌ c s) rest h =
    let other : eqb (code c) b'"' ≡ false = ground arith in rw (cons-append, other) refl

-- `escapeCSV` puts the text in quotes.
unfoldable pub is_quoted : String → Bool
is_quoted s = has_char b',' s || (has_char b'"' s || has_char b'\n' s)

quoted_field :
    (s rest : String)
    → is_quoted s ≡ true
    → read_field (escape_text s ⧺ ("," ⧺ rest)) ≡ some (s, "," ⧺ rest)
unfolding escape_text is_quoted
quoted_field s rest special = rw special (
    ap read_field (append_assoc "\"" (double_quotes s ⧺ "\"") ("," ⧺ rest))
    ∙ (read_field_quoted ((double_quotes s ⧺ "\"") ⧺ ("," ⧺ rest))
        ∙ (ap (read_quoted false) (append_assoc (double_quotes s) "\"" ("," ⧺ rest))
            ∙ read_quoted-double_quotes s rest)))

plain_field :
    (s rest : String)
    → is_quoted s ≡ false
    → read_field (escape_text s ⧺ ("," ⧺ rest)) ≡ read_plain (s ⧺ ("," ⧺ rest))
unfolding escape_text is_quoted
plain_field s rest ordinary = rw ordinary (read_field_plain s rest (ground arith))

plain_field_broken :
    (s rest : String)
    → is_quoted s ≡ false
    → read_field (escape_text s ⧺ ("," ⧺ rest)) ≡ some (s, "," ⧺ rest)
    → has_char b'\r' s ≡ false
plain_field_broken s rest ordinary read =
    let same : read_plain (s ⧺ ("," ⧺ rest)) ≡ some (s, "," ⧺ rest) =
      sym (plain_field s rest ordinary) ∙ read in
    let free : without_break (some (s, "," ⧺ rest)) ≡ true =
      subst (λ r. without_break r ≡ true) same (read_plain-without_break (s ⧺ ("," ⧺ rest))) in
    unfold without_break in ground arith

-- A strict reader of fields, to which a carriage return breaks a line as a line feed does, gets the
-- text back from what `escapeCSV` makes of it, whatever follows the comma after it, exactly if the
-- text is put in quotes or has no carriage return.
pub read_field-escape_text :
    (s rest : String)
    → (read_field (escape_text s ⧺ ("," ⧺ rest)) ≡ some (s, "," ⧺ rest))
      ↔ ((is_quoted s || not (has_char b'\r' s)) ≡ true)
read_field-escape_text s rest = elim (Bool-cases (is_quoted s)) [
  | inl special ↦ (λ read. ground arith, λ h. quoted_field s rest special)
  | inr ordinary ↦ (
    (λ read. let free = plain_field_broken s rest ordinary read in ground arith),
    λ h.
        plain_field s rest ordinary
        ∙ unfold is_quoted in read_plain_part s rest (ground arith) (ground arith),
  )
]

-- ===== src/Profiles/Hba/Laws.antt =====
-- The columns of client authentication rules survive the way through the rule's text, unless one is
-- cleared.
use pg_swarm.Base.{
  String, ◌≡◌, refl, Bool, true, false, List, [], ◌∷◌, ◌==◌, ◌&&◌, arith, eq_iff, if◌then◌else◌,
  Bool-cases, inl, inr, ap,
}
use text.Mathlib.TextLemmas.{nil-append}
use pg_swarm.Js.Text.{◌⧺◌}
use pg_swarm.Js.Words.{trim, words, is_space}
use pg_swarm.Js.Words.Laws.{
  has_no_space, is_word, runs-trim, runs-word_then, runs-word, blank_first,
}
use pg_swarm.Profiles.Hba.{Rule, of_parts, parse_hba_rule, format_hba_rule, with_column, of_user}

-- All columns are words; a local rule has no address.
unfoldable pub is_complete : Rule → Bool
is_complete r =
    is_word r.kind
    && is_word r.database
    && is_word r.user
    && (if r.kind == "local" then r.address == "" else is_word r.address)
    && is_word r.method

local_is_word : is_word "local" ≡ true
unfolding is_word has_no_space is_space
local_is_word = refl

words_four :
    (a b c d : String)
    → is_word a ≡ true
    → is_word b ≡ true
    → is_word c ≡ true
    → is_word d ≡ true
    → words (trim (a ⧺ (" " ⧺ (b ⧺ (" " ⧺ (c ⧺ (" " ⧺ d))))))) ≡ a ∷ b ∷ c ∷ d ∷ []
unfolding words
words_four a b c d ha hb hc hd =
    rw
      (
        runs-trim (a ⧺ (" " ⧺ (b ⧺ (" " ⧺ (c ⧺ (" " ⧺ d)))))),
        runs-word_then a (b ⧺ (" " ⧺ (c ⧺ (" " ⧺ d)))) ha,
        runs-word_then b (c ⧺ (" " ⧺ d)) hb,
        runs-word_then c d hc,
        runs-word d hd,
      )
      refl

words_five :
    (a b c d e : String)
    → is_word a ≡ true
    → is_word b ≡ true
    → is_word c ≡ true
    → is_word d ≡ true
    → is_word e ≡ true
    → words (trim (a ⧺ (" " ⧺ (b ⧺ (" " ⧺ (c ⧺ (" " ⧺ (d ⧺ (" " ⧺ e)))))))))
      ≡ a ∷ b ∷ c ∷ d ∷ e ∷ []
unfolding words
words_five a b c d e ha hb hc hd he =
    rw
      (
        runs-trim (a ⧺ (" " ⧺ (b ⧺ (" " ⧺ (c ⧺ (" " ⧺ (d ⧺ (" " ⧺ e)))))))),
        runs-word_then a (b ⧺ (" " ⧺ (c ⧺ (" " ⧺ (d ⧺ (" " ⧺ e)))))) ha,
        runs-word_then b (c ⧺ (" " ⧺ (d ⧺ (" " ⧺ e)))) hb,
        runs-word_then c (d ⧺ (" " ⧺ e)) hc,
        runs-word_then d e hd,
        runs-word e he,
      )
      refl

words_but_user :
    (a b d e : String)
    → is_word a ≡ true
    → is_word b ≡ true
    → is_word d ≡ true
    → is_word e ≡ true
    → words (trim (a ⧺ (" " ⧺ (b ⧺ (" " ⧺ ("" ⧺ (" " ⧺ (d ⧺ (" " ⧺ e))))))))) ≡ a ∷ b ∷ d ∷ e ∷ []
unfolding words
words_but_user a b d e ha hb hd he =
    rw
      (
        runs-trim (a ⧺ (" " ⧺ (b ⧺ (" " ⧺ ("" ⧺ (" " ⧺ (d ⧺ (" " ⧺ e)))))))),
        runs-word_then a (b ⧺ (" " ⧺ ("" ⧺ (" " ⧺ (d ⧺ (" " ⧺ e)))))) ha,
        runs-word_then b ("" ⧺ (" " ⧺ (d ⧺ (" " ⧺ e)))) hb,
        nil-append (" " ⧺ (d ⧺ (" " ⧺ e))),
        (blank_first (d ⧺ (" " ⧺ e))).0,
        runs-word_then d e hd,
        runs-word e he,
      )
      refl

parsed : (s : String) (ps : List String) → words s ≡ ps → parse_hba_rule s ≡ of_parts ps
unfolding parse_hba_rule
parsed s ps h = ap of_parts h

local_text :
    (d u a m : String)
    → format_hba_rule (record { kind = "local"; database = d; user = u; address = a; method = m })
      ≡ trim ("local" ⧺ (" " ⧺ (d ⧺ (" " ⧺ (u ⧺ (" " ⧺ m))))))
unfolding format_hba_rule
local_text d u a m = refl

other_text :
    (k d u a m : String)
    → k == "local" ≡ false
    → format_hba_rule (record { kind = k; database = d; user = u; address = a; method = m })
      ≡ trim (k ⧺ (" " ⧺ (d ⧺ (" " ⧺ (u ⧺ (" " ⧺ (a ⧺ (" " ⧺ m))))))))
unfolding format_hba_rule
other_text k d u a m h = rw h refl

local_back :
    (d u m : String)
    → is_word d ≡ true
    → is_word u ≡ true
    → is_word m ≡ true
    → parse_hba_rule (
        format_hba_rule
          (record { kind = "local"; database = d; user = u; address = ""; method = m }))
      ≡ record { kind = "local"; database = d; user = u; address = ""; method = m }
local_back d u m hd hu hm =
    rw (local_text d u "" m) (parsed _ _ (words_four "local" d u m local_is_word hd hu hm))

other_back :
    (k d u a m : String)
    → k == "local" ≡ false
    → is_word k ≡ true
    → is_word d ≡ true
    → is_word u ≡ true
    → is_word a ≡ true
    → is_word m ≡ true
    → parse_hba_rule
        (format_hba_rule (record { kind = k; database = d; user = u; address = a; method = m }))
      ≡ record { kind = k; database = d; user = u; address = a; method = m }
other_back k d u a m h hk hd hu ha hm =
    rw (other_text k d u a m h, parsed _ _ (words_five k d u a m hk hd hu ha hm), h) refl

-- A rule whose columns are words, with no address if it is local, has the same columns when its text
-- is parsed.
pub parse_hba_rule-format_hba_rule :
    (r : Rule) → is_complete r ≡ true → parse_hba_rule (format_hba_rule r) ≡ r
unfolding is_complete
parse_hba_rule-format_hba_rule r h = elim (Bool-cases (r.kind == "local")) [
  | inl e ↦
      rw ((eq_iff r.kind "local").0 e, (eq_iff r.address "").0 (ground arith))
        (local_back r.database r.user r.method (ground arith) (ground arith) (ground arith))
  | inr e ↦
      other_back r.kind r.database r.user r.address r.method e (ground arith) (ground arith)
        (ground arith) (ground arith) (ground arith)
]

-- Whoever clears the user of a rule that is not local, whose other columns are words, finds the
-- address in the place of the user, the method in the place of the address, and no method.
pub cleared_user_shifts :
    (r : Rule)
    → r.kind == "local" ≡ false
    → is_complete r ≡ true
    → parse_hba_rule (format_hba_rule (with_column of_user "" r)) ≡ record {
      kind = r.kind;
      database = r.database;
      user = r.address;
      address = r.method;
      method = "";
    }
unfolding is_complete with_column
cleared_user_shifts r e h =
    rw
      (
        other_text r.kind r.database "" r.address r.method e,
        parsed _ _ (
            words_but_user r.kind r.database r.address r.method (ground arith) (ground arith)
              (ground arith) (ground arith)),
        e,
      )
      refl

-- ===== src/Js/Words/Laws.antt =====
-- The words of a trimmed text and of words with spaces between them.
use Prim.Native.Char.{Char}
use text.Mathlib.TextLemmas.{nil-append, cons-append}
use pg_swarm.Base.{
  String, ◌≡◌, refl, Bool, true, false, not, [], ◌∷◌, ◌&&◌, ◌⊎◌, arith, Bool-cases, inl, inr,
  String,
}
use pg_swarm.Js.Text.{◌⧺◌}
use pg_swarm.Js.Words.{is_space, is_empty, trim_start, trim_end, trim, starts_word, runs}

-- A text without white space.
unfoldable pub has_no_space : String → Bool
has_no_space String.[] = true
has_no_space (String.◌∷◌ c s) = not (is_space c) && has_no_space s

-- A text that is not empty and has no white space.
unfoldable pub is_word : String → Bool
unfolding has_no_space
is_word s = not (is_empty s) && has_no_space s

both_cases : (b c : Bool) → (((b ≡ true) × (c ≡ true)) ⊎ ((b ≡ true) × (c ≡ false))) ⊎ (b ≡ false)
both_cases b c = ground arith

is_empty_eq : (s : String) → is_empty s ≡ true → s ≡ ""
is_empty_eq String.[] h = refl
is_empty_eq (String.◌∷◌ c s) h = ground arith

-- A space in front of a text adds no word.
pub blank_first : (s : String) → (runs (" " ⧺ s) ≡ runs s) × (starts_word (" " ⧺ s) ≡ false)
unfolding runs starts_word is_space
blank_first s = rw (cons-append, nil-append) (refl, refl)

runs-trim_start : (s : String) → runs (trim_start s) ≡ runs s
unfolding runs trim_start
runs-trim_start String.[] = refl
runs-trim_start (String.◌∷◌ c s) = elim (Bool-cases (is_space c)) [
  | inl h ↦ rw h (runs-trim_start s)
  | inr h ↦ rw h (rw h refl)
]

starts_word-trim_end : (s : String) → starts_word (trim_end s) ≡ starts_word s
unfolding starts_word trim_end
starts_word-trim_end String.[] = refl
starts_word-trim_end (String.◌∷◌ c s) = elim (both_cases (is_space c) (is_empty (trim_end s))) [
  | inl (inl (h, e)) ↦ rw (h, e) refl
  | inl (inr (h, e)) ↦ rw (h, e) (rw h refl)
  | inr h ↦ rw h (rw h refl)
]

runs-trim_end : (s : String) → runs (trim_end s) ≡ runs s
unfolding runs trim_end
runs-trim_end String.[] = refl
runs-trim_end (String.◌∷◌ c s) = elim (both_cases (is_space c) (is_empty (trim_end s))) [
  | inl (inl (h, e)) ↦ rw (h, e, ← runs-trim_end s, is_empty_eq (trim_end s) e) refl
  | inl (inr (h, e)) ↦ rw (h, e) (rw h (runs-trim_end s))
  | inr h ↦ rw h (rw (h, runs-trim_end s, starts_word-trim_end s) refl)
]

pub runs-trim : (s : String) → runs (trim s) ≡ runs s
unfolding trim
runs-trim s = rw (runs-trim_end (trim_start s)) (runs-trim_start s)

no_spaces :
    (c d : Char) (w : String)
    → is_word (String.◌∷◌ c (String.◌∷◌ d w)) ≡ true
    → (is_space c ≡ false) × (is_space d ≡ false)
unfolding is_word has_no_space
no_spaces c d w h = ground arith

-- A word and a space in front of a text are its first word.
pub runs-word_then : (w s : String) → is_word w ≡ true → runs (w ⧺ (" " ⧺ s)) ≡ w ∷ runs s
unfolding is_word has_no_space runs starts_word
runs-word_then String.[] s h = ground arith
runs-word_then (String.◌∷◌ c String.[]) s h = elim (Bool-cases (is_space c)) [
  | inl e ↦ ground arith
  | inr e ↦
      rw (cons-append c "" (" " ⧺ s), nil-append (" " ⧺ s), e, (blank_first s).0, (blank_first s).1)
        refl
]
runs-word_then (String.◌∷◌ c (String.◌∷◌ d w)) s h =
    let both = no_spaces c d w h in
    let rest = runs-word_then (String.◌∷◌ d w) s (ground arith) in
    rw (cons-append c (String.◌∷◌ d w) (" " ⧺ s), both.0, rest, cons-append d w (" " ⧺ s), both.1)
      refl

pub runs-word : (w : String) → is_word w ≡ true → runs w ≡ w ∷ []
unfolding is_word has_no_space runs starts_word
runs-word String.[] h = ground arith
runs-word (String.◌∷◌ c String.[]) h = ground arith
runs-word (String.◌∷◌ c (String.◌∷◌ d w)) h =
    let both = no_spaces c d w h in
    let rest = runs-word (String.◌∷◌ d w) (ground arith) in rw (both.0, rest, both.1) refl

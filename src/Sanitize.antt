-- ===== src/Sanitize.antt =====
-- omkit/sanitize.py: the cleaning of model output and of HTML, and the search for JSON in a text. The
-- regular expressions are written out as scanners. Parameters are the classes of characters of
-- Unicode, the equality of letters under IGNORECASE, `json.loads` and the printing with an indent.
pub mod Model
pub mod Markup
pub mod Blocks
pub mod Html
pub mod Brackets
mod Tests
use omkit_python.Prelude.{
  ℕ, zero, suc, ◌+◌, ◌-◌, Bool, true, false, not, ◌&&◌, ◌||◌, Option, none, some, List, [], ◌∷◌,
  ◌++◌, if◌then◌else◌, ◌==◌, nat_eq, length, leb,
}
use omkit_python.Prelude.Text.{Text, codes, is_empty, text_eq, starts_with}
use omkit_python.Json.{Value}

-- `re` on a character of a pattern: `same c d` is `eqb c d`, or equality under IGNORECASE.
module _ (same : ℕ → ℕ → Bool) where
  -- The rest of the text after a literal at its start.
  unfoldable pub after : Text → Text → Option Text
  after [] s = some s
  after (c ∷ p) [] = none
  after (c ∷ p) (d ∷ s) = let rest = after p s in if same c d then rest else none

  -- The rest after the first occurrence of a literal: `.*?` and the literal, with DOTALL.
  unfoldable pub skip_to : Text → Text → Option Text
  unfolding after
  skip_to close [] = after close []
  skip_to close (c ∷ s) =
      let later = skip_to close s in
      elim (after close (c ∷ s)) [ some rest ↦ some rest | none ↦ later ]

  -- `re.sub(open + ".*?" + close, "", s)`, on fuel: a match leaves a shorter text.
  unfoldable pub remove_from : ℕ → Text → Text → Text → Text
  unfolding after skip_to
  remove_from zero open_tag close_tag s = s
  remove_from (suc n) open_tag close_tag [] = []
  remove_from (suc n) open_tag close_tag (c ∷ s) =
      let kept = c ∷ remove_from n open_tag close_tag s in
      elim (after open_tag (c ∷ s)) [
        | none ↦ kept
        | some inner ↦ elim (skip_to close_tag inner) [
          | none ↦ kept
          | some rest ↦ remove_from n open_tag close_tag rest
        ]
      ]

  unfoldable pub remove_blocks : Text → Text → Text → Text
  unfolding remove_from
  remove_blocks open_tag close_tag s = remove_from (length s) open_tag close_tag s

-- The longest start of the text whose characters are in the class, and what follows it.
unfoldable pub span : (ℕ → Bool) → Text → Text × Text
span p [] = ([], [])
span p (c ∷ s) = let rest = span p s in if p c then (c ∷ rest.0, rest.1) else ([], c ∷ s)

-- `[…]+` and what follows it.
unfoldable pub some_of : (ℕ → Bool) → Text → Option Text
unfolding span
some_of p s = let (run, rest) = span p s in if is_empty run then none else some rest

-- `str.strip`
abbrev pub lstrip : (ℕ → Bool) → Text → Text
lstrip space [] = []
lstrip space (c ∷ s) = let rest = lstrip space s in if space c then rest else c ∷ s

abbrev pub reverse_onto : Text → Text → Text
reverse_onto acc [] = acc
reverse_onto acc (c ∷ s) = reverse_onto (c ∷ acc) s

unfoldable pub strip : (ℕ → Bool) → Text → Text
strip space s = reverse_onto [] (lstrip space (reverse_onto [] (lstrip space s)))

-- `re.sub(pattern, "", s)` on fuel, for a pattern that matches no empty text: from the character
-- before a text it gives the last character of a match at its start, and the rest.
abbrev pub Pattern : Type 0
Pattern = Option ℕ → Text → Option (ℕ × Text)

unfoldable pub sub_from : ℕ → Pattern → Option ℕ → Text → Text
sub_from zero pattern before s = s
sub_from (suc n) pattern before [] = []
sub_from (suc n) pattern before (c ∷ s) =
    let kept = c ∷ sub_from n pattern (some c) s in
    elim (pattern before (c ∷ s)) [
      | none ↦ kept
      | some (last, rest) ↦ sub_from n pattern (some last) rest
    ]

unfoldable pub sub : Pattern → Text → Text
unfolding sub_from
sub pattern s = sub_from (length s) pattern none s

abbrev pub exactly : ℕ → ℕ → Bool
exactly c d = c == d

-- The steps of a pattern, one after the other.
infixl 5 ◌>>=◌
abbrev pub ◌>>=◌ : {A B : Type 0} → Option A → (A → Option B) → Option B
none >>= k = none
some a >>= k = k a

abbrev pub one_of : (ℕ → Bool) → Text → Option (ℕ × Text)
one_of p [] = none
one_of p (c ∷ s) = if p c then some (c, s) else none

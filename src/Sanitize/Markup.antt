-- ===== src/Sanitize/Markup.antt =====
-- omkit/sanitize.py: `sanitize_html`, and `html.escape`.
use omkit_python.Prelude.{
  ℕ, Bool, true, not, ◌||◌, Option, none, some, [], ◌∷◌, ◌++◌, if◌then◌else◌, ◌==◌, nat_eq,
}
use omkit_python.Prelude.Text.{Text, codes, text_eq}
use omkit_python.Sanitize.{
  after, remove_blocks, span, some_of, Pattern, sub, exactly, ◌>>=◌, one_of,
}

module _ (space word : ℕ → Bool) (same_letter : ℕ → ℕ → Bool) where
  -- `\bon\w+\s*=\s*["'][^"']*["']`
  abbrev is_quote : ℕ → Bool
  is_quote c = c == b'"' || c == b'\''

  abbrev at_boundary : Option ℕ → Bool
  at_boundary none = true
  at_boundary (some c) = not (word c)

  unfoldable pub handler : Pattern
  unfolding after span some_of
  handler before s = do
    _ ← if at_boundary before then some s else none
    a ← after same_letter (codes "on") s
    b ← some_of word a
    d ← after exactly (codes "=") (span space b).1
    (q, e) ← one_of is_quote (span space d).1
    one_of is_quote (span (λ c. not (is_quote c)) e).1

  -- `html.escape`
  unfoldable pub escape_char : ℕ → Text
  escape_char c =
      if c == b'&'
      then codes "&amp;"
      else if c == b'<'
      then codes "&lt;"
      else if c == b'>'
      then codes "&gt;"
      else if c == b'"'
      then codes "&quot;"
      else if c == b'\''
      then codes "&#x27;"
      else c ∷ []

  unfoldable pub escape : Text → Text
  unfolding escape_char
  escape [] = []
  escape (c ∷ s) = escape_char c ++ escape s

  unfoldable pub sanitize_html : Text → Text
  unfolding remove_blocks sub handler escape
  sanitize_html s =
      escape (sub handler (remove_blocks same_letter (codes "<script") (codes "</script>") s))

-- ===== src/Sanitize/Html.antt =====
-- omkit/sanitize.py: what `sanitize_html` lets through.
use omkit_python.Prelude.{ℕ, ◌≢◌, Bool, [], ◌∷◌, ◌++◌, arith, All, nat_eq}
use omkit_python.Prelude.Text.{Text, codes}
use omkit_python.Sanitize.{sub, remove_blocks}
use omkit_python.Sanitize.Markup.{escape_char, escape, handler, sanitize_html}

-- No character of HTML's syntax, but the ampersand of an entity.
abbrev pub Inert : ℕ → Type 0
Inert c = (c ≢ b'<') × (c ≢ b'>') × (c ≢ b'"') × (c ≢ b'\'')

All-append : (s t : Text) → All Inert s → All Inert t → All Inert (s ++ t)
All-append [] t h k = k
All-append (c ∷ s) t h k = (h.0, All-append s t h.1 k)

module _ (space word : ℕ → Bool) (same_letter : ℕ → ℕ → Bool) where
  escape_char-Inert : (c : ℕ) → All Inert (escape_char space word same_letter c)
  unfolding escape_char
  escape_char-Inert c = ground arith

  escape-Inert : (s : Text) → All Inert (escape space word same_letter s)
  unfolding escape
  escape-Inert [] = tt
  escape-Inert (c ∷ s) =
      All-append _ (escape space word same_letter s) (escape_char-Inert c) (escape-Inert s)

  -- Whatever the text, the result of `sanitize_html` has no angle bracket and no quotation mark: it
  -- can open no tag, and end no attribute.
  pub sanitize_html-Inert : (s : Text) → All Inert (sanitize_html space word same_letter s)
  unfolding sanitize_html
  sanitize_html-Inert s = escape-Inert (
      sub (handler space word same_letter)
        (remove_blocks same_letter (codes "<script") (codes "</script>") s))

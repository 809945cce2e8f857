-- ===== src/Sanitize/Model.antt =====
-- omkit/sanitize.py: `sanitize_llm_output`, `sanitize_llm_response` and `extract_json`.
use omkit_python.Prelude.{
  ℕ, ◌+◌, ◌-◌, Bool, false, not, ◌&&◌, ◌||◌, Option, none, some, [], ◌∷◌, if◌then◌else◌, ◌==◌,
  nat_eq, leb,
}
use omkit_python.Prelude.Text.{Text, codes, is_empty, text_eq}
use omkit_python.Json.{Value}
use omkit_python.Sanitize.{after, remove_blocks, span, some_of, strip, Pattern, sub, exactly, ◌>>=◌}

abbrev is_b64 : ℕ → Bool
is_b64 c =
    (leb b'A' c && leb c b'Z')
    || (leb b'a' c && leb c b'z')
    || (leb b'0' c && leb c b'9')
    || c == b'+'
    || c == b'/'
    || c == b'='

-- `data:image/[^;]+;base64,[A-Za-z0-9+/=]+`
unfoldable pub inline_image : Pattern
unfolding after some_of
inline_image before s = do
  a ← after exactly (codes "data:image/") s
  b ← some_of (λ c. not (c == b';')) a
  d ← after exactly (codes ";base64,") b
  rest ← some_of is_b64 d
  some (b'=', rest)

-- `!\[[^\]]*\]\([^)]+\)`
unfoldable pub markdown_image : Pattern
unfolding after span some_of
markdown_image before s = do
  a ← after exactly (codes "![") s
  b ← after exactly (codes "](") (span (λ c. not (c == b']')) a).1
  d ← some_of (λ c. not (c == b')')) b
  rest ← after exactly (codes ")") d
  some (b')', rest)

abbrev pub fence : Text
fence = codes "```"

-- The text up to a literal, if it occurs.
unfoldable pub before_literal : Text → Text → Option Text
unfolding after
before_literal p [] = if is_empty p then some [] else none
before_literal p (c ∷ s) =
    let rest = before_literal p s in
    elim (after exactly p (c ∷ s)) [
      | some r ↦ some []
      | none ↦ elim rest [ none ↦ none | some t ↦ some (c ∷ t) ]
    ]

module _ (space word : ℕ → Bool) (same_letter : ℕ → ℕ → Bool) where
  abbrev or_else : Text → Option Text → Text
  or_else d none = d
  or_else d (some r) = r

  -- The group of "```(?:json)?\s*([\s\S]*?)```" at the start of a text.
  unfoldable pub fenced : Text → Option Text
  unfolding after before_literal span
  fenced s = do
    a ← after exactly fence s
    before_literal fence (span space (or_else a (after exactly (codes "json") a))).1

  -- `re.search`, with the group of the first match.
  unfoldable pub search_fenced : Text → Option Text
  unfolding fenced
  search_fenced [] = none
  search_fenced (c ∷ s) =
      let later = search_fenced s in elim (fenced (c ∷ s)) [ some g ↦ some g | none ↦ later ]

  unfoldable pub sanitize_llm_output : Text → Text
  unfolding remove_blocks strip
  sanitize_llm_output s = strip space (remove_blocks exactly (codes "<think>") (codes "</think>") s)

  module _ (loads : Text → Option Value) (pretty : Value → Text) where
    abbrev pub opens_json : Text → Bool
    opens_json [] = false
    opens_json (c ∷ s) = c == b'{' || c == b'['

    -- Embedded JSON is printed anew, if it can be read.
    unfoldable pub normalise : Text → Text
    normalise s = if opens_json s then elim (loads s) [ none ↦ s | some v ↦ pretty v ] else s

    unfoldable pub unfenced : Text → Text
    unfolding search_fenced strip
    unfenced s = elim (search_fenced s) [ none ↦ s | some g ↦ strip space g ]

    unfoldable pub sanitize_llm_response : Text → Text
    unfolding remove_blocks strip unfenced sub inline_image markdown_image normalise
    sanitize_llm_response s =
        let thought =
          strip space (remove_blocks same_letter (codes "<think>") (codes "</think>") s) in
        let bare = sub markdown_image (sub inline_image (unfenced thought)) in
        strip space (normalise (strip space bare))

    -- The text from its first bracket on.
    unfoldable pub from_bracket : Text → Option Text
    from_bracket [] = none
    from_bracket (c ∷ s) =
        let rest = from_bracket s in if opens_json (c ∷ s) then some (c ∷ s) else rest

    -- The scan for the end of the first bracket: the text up to the place where `depth` is 0 again.
    unfoldable pub scan : (bracket close depth : ℕ) → Text → Option Text
    scan bracket close depth [] = none
    scan bracket close depth (c ∷ s) =
        let up = scan bracket close (depth + 1) s in
        let down = scan bracket close (depth - 1) s in
        let same = scan bracket close depth s in
        let push = λ (r : Option Text). elim r as (λ _. Option Text) [
          | none ↦ none
          | some t ↦ some (c ∷ t)
        ] in
        if c == bracket
        then push up
        else if c == close
        then if depth == 1 then some (c ∷ []) else push down
        else push same

    abbrev closing : Text → ℕ
    closing [] = b']'
    closing (c ∷ s) = if c == b'{' then b'}' else b']'

    abbrev first : Text → ℕ
    first [] = 0
    first (c ∷ s) = c

    unfoldable pub extract_json : Text → Option Value
    unfolding sanitize_llm_response from_bracket scan
    extract_json s = elim (from_bracket (sanitize_llm_response s)) [
      | none ↦ none
      | some cleaned ↦ elim (loads cleaned) [
        | some v ↦ some v
        | none ↦ elim (scan (first cleaned) (closing cleaned) 0 cleaned) [
          | none ↦ none
          | some t ↦ loads t
        ]
      ]
    ]

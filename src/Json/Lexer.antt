-- ===== src/Json/Lexer.antt =====
-- The scalars of `json.loads`: white space, strings with their escapes, and numbers.
use omkit_python.Prelude.{
  ℕ, zero, suc, ◌+◌, ◌-◌, ◌*◌, Bool, false, Option, none, some, [], ◌∷◌, ltb, leb, eqb, ◌&&◌, ◌||◌,
  if◌then◌else◌,
}
use omkit_python.Prelude.Text.{Text, text_eq}

unfoldable pub is_space : ℕ → Bool
is_space c = eqb c 32 || eqb c 9 || eqb c 10 || eqb c 13

unfoldable pub skip : Text → Text
unfolding is_space
skip [] = []
skip (c ∷ s) = let rest = skip s in if is_space c then rest else c ∷ s

unfoldable pub hex_value : ℕ → Option ℕ
hex_value c =
    if leb 48 c && leb c 57
    then some (c - 48)
    else if leb 97 c && leb c 102
    then some (c - 87)
    else if leb 65 c && leb c 70
    then some (c - 55)
    else none

-- Four hexadecimal digits, with the rest of the text.
unfoldable pub hex4 : Text → Option (ℕ × Text)
unfolding hex_value
hex4 (a ∷ b ∷ c ∷ d ∷ s) = elim (hex_value a) [
  | none ↦ none
  | some x ↦ elim (hex_value b) [
    | none ↦ none
    | some y ↦ elim (hex_value c) [
      | none ↦ none
      | some z ↦ elim (hex_value d) [
        | none ↦ none
        | some w ↦ some (x * 4096 + y * 256 + z * 16 + w, s)
      ]
    ]
  ]
]
hex4 _ = none

-- A low surrogate at the start of a text, as an escape.
unfoldable pub low_surrogate : Text → Option (ℕ × Text)
unfolding hex4
low_surrogate (b ∷ u ∷ s) =
    if eqb b 92 && eqb u 117
    then elim (hex4 s) [
      | none ↦ none
      | some (l, rest) ↦ if leb 56320 l && leb l 57343 then some (l, rest) else none
    ]
    else none
low_surrogate _ = none

-- What follows `\u`: two surrogates are one character.
unfoldable pub unicode_char : Text → Option (ℕ × Text)
unfolding hex4 low_surrogate
unicode_char s = elim (hex4 s) [
  | none ↦ none
  | some (h, rest) ↦
      if leb 55296 h && leb h 56319
      then elim (low_surrogate rest) [
        | none ↦ some (h, rest)
        | some (l, rest') ↦ some (65536 + ((h - 55296) * 1024 + (l - 56320)), rest')
      ]
      else some (h, rest)
]

-- The character that a backslash and another one stand for.
unfoldable pub short_escape : ℕ → Option ℕ
short_escape c =
    if eqb c 34 || eqb c 92 || eqb c 47
    then some c
    else if eqb c 98
    then some 8
    else if eqb c 102
    then some 12
    else if eqb c 110
    then some 10
    else if eqb c 114
    then some 13
    else if eqb c 116
    then some 9
    else none

-- One character of a string, or the quotation mark that closes it: `some none`. A control character
-- raises.
unfoldable pub read_char : Text → Option (Option ℕ × Text)
unfolding unicode_char short_escape
read_char [] = none
read_char (c ∷ []) = if eqb c 34 then some (none, []) else none
read_char (c ∷ e ∷ s) =
    if eqb c 34
    then some (none, e ∷ s)
    else if eqb c 92
    then (if eqb e 117
        then elim (unicode_char s) [ none ↦ none | some (x, rest) ↦ some (some x, rest) ]
        else elim (short_escape e) [ none ↦ none | some x ↦ some (some x, s) ])
    else if ltb c 32
    then none
    else some (some c, e ∷ s)

-- The rest of a string after its first quotation mark.
unfoldable pub read_string : ℕ → Text → Option (Text × Text)
unfolding read_char
read_string zero s = none
read_string (suc n) s = elim (read_char s) [
  | none ↦ none
  | some (none, rest) ↦ some ([], rest)
  | some (some c, rest) ↦ elim (read_string n rest) [
    | none ↦ none
    | some (t, rest') ↦ some (c ∷ t, rest')
  ]
]

unfoldable pub is_digit : ℕ → Bool
is_digit c = leb 48 c && leb c 57

unfoldable pub read_digits : ℕ → Text → ℕ × Text
unfolding is_digit
read_digits acc [] = (acc, [])
read_digits acc (c ∷ s) =
    let more = read_digits (acc * 10 + (c - 48)) s in if is_digit c then more else (acc, c ∷ s)

-- `.`, `e` and `E` make a float of a number.
unfoldable pub is_float : Text → Bool
is_float [] = false
is_float (c ∷ s) = eqb c 46 || eqb c 101 || eqb c 69

-- A number without its sign; after a zero there are no digits.
unfoldable pub read_number : Text → Option (ℕ × Text)
unfolding is_digit read_digits is_float
read_number [] = none
read_number (c ∷ s) =
    let found : ℕ × Text = if eqb c 48 then (0, s) else read_digits 0 (c ∷ s) in
    if is_digit c then (if is_float found.1 then none else some found) else none

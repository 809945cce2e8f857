-- ===== src/Json/Reader.antt =====
-- `json.loads` of the standard library, on texts: white space, literals, integers, strings with
-- their escapes, arrays and objects. A text with a float, which no `Value` stands for, is not read.
use omkit_python.Prelude.{
  ℕ, zero, suc, true, false, Option, none, some, [], ◌∷◌, eqb, ◌||◌, if◌then◌else◌, ◌==◌, length,
}
use omkit_python.Prelude.Text.{Text, codes, text_eq}
use omkit_python.Prelude.Int.{ℤ, pos, negsuc}
use omkit_python.Json.{
  Value, null, boolean, int, str, arr, obj, Items, nil, cons, Fields, end, field,
}
use omkit_python.Json.Lexer.{skip, read_string, is_digit, read_number}

-- `-0` is 0.
unfoldable pub negated : ℕ → ℤ
negated zero = pos 0
negated (suc n) = negsuc n

-- The rest of a text after a prefix.
unfoldable pub after : Text → Text → Option Text
after [] s = some s
after (c ∷ p) [] = none
after (c ∷ p) (d ∷ s) = let rest = after p s in if eqb c d then rest else none

-- The value of a key that occurs again takes the place of its first.
unfoldable pub set_field : Text → Value → Fields → Fields
set_field k v end = field k v end
set_field k v (field j w fs) = if j == k then field j v fs else field j w (set_field k v fs)

pub data Start : Type 0 where
  quotation bracket brace minus letter digit nothing : Start

-- What a value starts with.
unfoldable pub start_of : ℕ → Start
unfolding is_digit
start_of c =
    if eqb c 34
    then quotation
    else if eqb c 91
    then bracket
    else if eqb c 123
    then brace
    else if eqb c 45
    then minus
    else if is_digit c
    then digit
    else if eqb c 110 || eqb c 116 || eqb c 102
    then letter
    else nothing

unfoldable pub read_literal : Text → Option (Value × Text)
unfolding after
read_literal s = elim (after (codes "null") s) [
  | some r ↦ some (null, r)
  | none ↦ elim (after (codes "true") s) [
    | some r ↦ some (boolean true, r)
    | none ↦ elim (after (codes "false") s) [ some r ↦ some (boolean false, r) | none ↦ none ]
  ]
]

-- What follows a value in a container: a comma, after which another one comes, or the end.
pub data Next : Type 0 where
  more stop : Text → Next
  bad : Next

unfoldable pub next_of : (closing : ℕ) → Text → Next
next_of closing [] = bad
next_of closing (c ∷ s) = if eqb c 44 then more s else if eqb c closing then stop s else bad

-- A key and its colon.
unfoldable pub read_key : Text → Option (Text × Text)
unfolding read_string after skip
read_key [] = none
read_key (c ∷ s) =
    if eqb c 34
    then elim (read_string (suc (length s)) s) [
      | none ↦ none
      | some (k, r) ↦ elim (after (58 ∷ []) (skip r)) [ none ↦ none | some r' ↦ some (k, skip r') ]
    ]
    else none

unfoldable mutual
  unfolding skip read_string read_number negated read_literal start_of next_of read_key set_field

  pub read_value : ℕ → Text → Option (Value × Text)
  read_value zero s = none
  read_value (suc n) [] = none
  read_value (suc n) (c ∷ s) = elim (start_of c) [
    | quotation ↦ elim (read_string (suc (length s)) s) [
      | none ↦ none
      | some (t, r) ↦ some (str t, r)
    ]
    | bracket ↦ elim (next_of 93 (skip s)) [
      | stop r ↦ some (arr nil, r)
      | _ ↦ elim (read_items n (skip s)) [ none ↦ none | some (xs, r) ↦ some (arr xs, r) ]
    ]
    | brace ↦ elim (next_of 125 (skip s)) [
      | stop r ↦ some (obj end, r)
      | _ ↦ elim (read_members n end (skip s)) [ none ↦ none | some (fs, r) ↦ some (obj fs, r) ]
    ]
    | minus ↦ elim (read_number s) [ none ↦ none | some (m, r) ↦ some (int (negated m), r) ]
    | digit ↦ elim (read_number (c ∷ s)) [ none ↦ none | some (m, r) ↦ some (int (pos m), r) ]
    | letter ↦ read_literal (c ∷ s)
    | nothing ↦ none
  ]

  pub read_items : ℕ → Text → Option (Items × Text)
  read_items zero s = none
  read_items (suc n) s = elim (read_value n s) [
    | none ↦ none
    | some (v, r) ↦ elim (next_of 93 (skip r)) [
      | stop r' ↦ some (cons v nil, r')
      | bad ↦ none
      | more r' ↦ elim (read_items n (skip r')) [
        | none ↦ none
        | some (xs, r'') ↦ some (cons v xs, r'')
      ]
    ]
  ]

  pub read_members : ℕ → Fields → Text → Option (Fields × Text)
  read_members zero fs s = none
  read_members (suc n) fs s = elim (read_key s) [
    | none ↦ none
    | some (k, r) ↦ elim (read_value n r) [
      | none ↦ none
      | some (v, r') ↦ elim (next_of 125 (skip r')) [
        | stop r'' ↦ some (set_field k v fs, r'')
        | bad ↦ none
        | more r'' ↦ read_members n (set_field k v fs) (skip r'')
      ]
    ]
  ]

-- `json.loads`: the fuel is the length of the text, as every value has a character at least.
unfoldable pub loads : Text → Option Value
unfolding skip read_value
loads s = elim (read_value (suc (length s)) (skip s)) [
  | none ↦ none
  | some (v, r) ↦ elim (skip r) [ [] ↦ some v | c ∷ t ↦ none ]
]

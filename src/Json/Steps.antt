-- ===== src/Json/Steps.antt =====
-- `json.loads` one step at a time, on what `json.dumps` writes.
use omkit_python.Json.Decimal.{print_ℕ, print_int}
use omkit_python.Json.Strings.{escape_all, quote}
use omkit_python.Prelude.{
  ℕ, suc, ◌≤◌, ◌≡◌, refl, ap, some, [], ◌∷◌, ◌++◌, arith, length, length-append, append_assoc,
}
use omkit_python.Prelude.Text.{Text, text_eq}
use omkit_python.Prelude.Int.{ℤ, pos, negsuc}
use omkit_python.Json.{Value, int, str, arr, obj, Items, nil, cons, Fields, end}
use omkit_python.Json.Lexer.{skip, read_string}
use omkit_python.Json.Reader.{
  after, set_field, start_of, next_of, read_key, read_value, read_items, read_members, bad, digit,
}
use omkit_python.Json.Scalars.{IsScalars, read_string-escape_all}
use omkit_python.Json.Numbers.{EndsNumber, Prints, print_ℕ-Prints, read_number-Prints}
use omkit_python.Json.Shapes.{Begun, AreSpaces, skip-AreSpaces, escape_all-long}

read_quoted :
    (s rest : Text)
    → IsScalars s
    → read_string (suc (length (escape_all s ++ (34 ∷ rest)))) (escape_all s ++ (34 ∷ rest))
      ≡ some (s, rest)
read_quoted s rest v =
    read_string-escape_all s rest (suc (length (escape_all s ++ (34 ∷ rest)))) v
      (omega (arith, escape_all-long s, length-append (escape_all s) (34 ∷ rest)))

-- The text of a string, as it is written and followed by another.
pub quote-append : (s rest : Text) → quote s ++ rest ≡ 34 ∷ (escape_all s ++ (34 ∷ rest))
unfolding quote
quote-append s rest = ap (◌∷◌ 34) (append_assoc (escape_all s) (34 ∷ []) rest)

pub read_value-str :
    (n : ℕ) (s rest : Text)
    → IsScalars s
    → read_value (suc n) (quote s ++ rest) ≡ some (str s, rest)
unfolding read_value
read_value-str n s rest v = rw (quote-append s rest, read_value, read_quoted s rest v) refl

start_of-digit : (c : ℕ) → 48 ≤ c → c ≤ 57 → start_of c ≡ digit
unfolding start_of
start_of-digit c lo hi = ground (arith, lo, hi)

read_value-Prints :
    (n m : ℕ) (s rest : Text)
    → Prints m s
    → EndsNumber rest
    → read_value (suc n) (s ++ rest) ≡ some (int (pos m), rest)
unfolding read_value
read_value-Prints n m [] rest v h = absurd v
read_value-Prints n m (c ∷ s) rest v h =
    let ((lo, hi, ds), e, z) = v in
    rw (start_of-digit c lo hi, read_value, read_number-Prints m (c ∷ s) rest v h) refl

pub read_value-int :
    (n : ℕ) (i : ℤ) (rest : Text)
    → EndsNumber rest
    → read_value (suc n) (print_int i ++ rest) ≡ some (int i, rest)
unfolding read_value print_int
read_value-int n (pos m) rest h = read_value-Prints n m (print_ℕ m) rest (print_ℕ-Prints m) h
read_value-int n (negsuc m) rest h =
    rw (read_number-Prints (suc m) (print_ℕ (suc m)) rest (print_ℕ-Prints (suc m)) h, read_value)
      refl

pub read_key-quote :
    (k sp rest : Text)
    → IsScalars k
    → AreSpaces sp
    → read_key (quote k ++ (58 ∷ (sp ++ rest))) ≡ some (k, skip rest)
unfolding read_key after
read_key-quote k sp rest v a =
    rw
      (
        quote-append k (58 ∷ (sp ++ rest)),
        read_key,
        read_quoted k (58 ∷ (sp ++ rest)) v,
        skip-AreSpaces sp rest a,
      )
      refl

pub items_last :
    (n : ℕ) (t rest : Text) (v : Value)
    → read_value n t ≡ some (v, 93 ∷ rest)
    → read_items (suc n) t ≡ some (cons v nil, rest)
unfolding read_items next_of
items_last n t rest v h = rw (h, read_items) refl

pub items_more :
    (n : ℕ) (t u rest : Text) (v : Value) (xs : Items)
    → read_value n t ≡ some (v, 44 ∷ u)
    → read_items n (skip u) ≡ some (xs, rest)
    → read_items (suc n) t ≡ some (cons v xs, rest)
unfolding read_items next_of
items_more n t u rest v xs h k = rw (h, read_items, k) refl

pub members_last :
    (n : ℕ) (t u rest k : Text) (v : Value) (acc : Fields)
    → read_key t ≡ some (k, u)
    → read_value n u ≡ some (v, 125 ∷ rest)
    → read_members (suc n) acc t ≡ some (set_field k v acc, rest)
unfolding read_members next_of
members_last n t u rest k v acc h e = rw (h, read_members, e) refl

pub members_more :
    (n : ℕ) (t u w k : Text) (v : Value) (acc : Fields)
    → read_key t ≡ some (k, u)
    → read_value n u ≡ some (v, 44 ∷ w)
    → read_members (suc n) acc t ≡ read_members n (set_field k v acc) (skip w)
unfolding read_members next_of
members_more n t u w k v acc h e = rw (h, read_members, e) refl

-- A text that has begun as a value is not the end of a container.
next_of-Begun : (t : Text) → Begun t → next_of 93 t ≡ bad × next_of 125 t ≡ bad
unfolding next_of
next_of-Begun t (c, (r, (e, b))) = rw (e, next_of) (ground (arith, b), ground (arith, b))

pub value_arr :
    (n : ℕ) (t rest : Text) (xs : Items)
    → Begun t
    → skip t ≡ t
    → read_items n t ≡ some (xs, rest)
    → read_value (suc n) (91 ∷ t) ≡ some (arr xs, rest)
unfolding read_value
value_arr n t rest xs b s h = rw (s, read_value, (next_of-Begun t b).0, s, h) refl

pub value_obj :
    (n : ℕ) (t rest : Text) (fs : Fields)
    → Begun t
    → skip t ≡ t
    → read_members n end t ≡ some (fs, rest)
    → read_value (suc n) (123 ∷ t) ≡ some (obj fs, rest)
unfolding read_value
value_obj n t rest fs b s h = rw (s, read_value, (next_of-Begun t b).1, s, h) refl

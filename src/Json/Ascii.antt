-- ===== src/Json/Ascii.antt =====
-- `json.dumps` writes ASCII.
use omkit_python.Json.Decimal.{print_ℕ, print_int}
use omkit_python.Json.Strings.{hex_digit, unicode_escape, escape, escape_all, quote}
use omkit_python.Prelude.{
  ℕ, suc, ◌+◌, ◌-◌, ◌/◌, ◌%◌, ◌<◌, ◌≡◌, refl, inl, inr, Bool, true, false, [], ◌∷◌, ◌++◌, arith,
  ◌&&◌, ltb,
}
use omkit_python.Prelude.Text.{Text, utf8, utf8_char}
use omkit_python.Prelude.Int.{pos, negsuc}
use omkit_python.Json.{
  Value, null, boolean, int, str, arr, obj, Items, nil, cons, Fields, end, field, dumps, join,
  pairs, brackets, braces,
}
use omkit_python.Json.Lexer.{short_escape}
use omkit_python.Json.Scalars.{IsScalars, escape-Forms}
use omkit_python.Json.Numbers.{AreDigits, Prints, print_ℕ-Prints}
use omkit_python.Json.Layout.{st, items_text, members_text}

abbrev pub IsAscii : Text → Type 0
IsAscii [] = Unit
IsAscii (c ∷ s) = (c < 128) × IsAscii s

abbrev pub is_ascii : Text → Bool
is_ascii [] = true
is_ascii (c ∷ s) = ltb c 128 && is_ascii s

-- ASCII has no surrogates.
pub is_ascii-IsScalars : (s : Text) → is_ascii s ≡ true → IsScalars s
is_ascii-IsScalars [] h = tt
is_ascii-IsScalars (c ∷ s) h = (inl (ground (arith, h)), is_ascii-IsScalars s (ground (arith, h)))

append-IsAscii : (s t : Text) → IsAscii s → IsAscii t → IsAscii (s ++ t)
append-IsAscii [] t v w = w
append-IsAscii (c ∷ s) t v w = (v.0, append-IsAscii s t v.1 w)

-- ASCII is its own UTF-8.
pub utf8-IsAscii : (s : Text) → IsAscii s → utf8 s ≡ s
unfolding utf8 utf8_char
utf8-IsAscii [] v = refl
utf8-IsAscii (c ∷ s) v = ground (arith, v.0, utf8-IsAscii s v.1)

hex_digit-below : (d : ℕ) → d < 16 → hex_digit d < 128
unfolding hex_digit
hex_digit-below d h = ground arith

unicode_escape-IsAscii : (n : ℕ) → IsAscii (unicode_escape n)
unfolding unicode_escape
unicode_escape-IsAscii n = (
  omega arith,
  (
    omega arith,
    (
      hex_digit-below (n / 4096 % 16) (omega arith),
      (
        hex_digit-below (n / 256 % 16) (omega arith),
        (hex_digit-below (n / 16 % 16) (omega arith), (hex_digit-below (n % 16) (omega arith), tt)),
      ),
    ),
  ),
)

escape-IsAscii : (c : ℕ) → IsAscii (escape c)
unfolding short_escape
escape-IsAscii c = elim (escape-Forms c) [
  | inl (x, (t, h, k)) ↦ rw t (omega arith, (ground (arith, k), tt))
  | inr (inl (t, a, b, d, up)) ↦ rw t (omega (arith, up), tt)
  | inr (inr (inl (t, lt))) ↦ rw t (unicode_escape-IsAscii c)
  | inr (inr (inr (t, ge))) ↦
      let h = 55296 + (c - 65536) / 1024 in
      let l = 56320 + (c - 65536) % 1024 in
      rw t (
        append-IsAscii (unicode_escape h) (unicode_escape l) (unicode_escape-IsAscii h)
          (unicode_escape-IsAscii l))
]

escape_all-IsAscii : (s : Text) → IsAscii (escape_all s)
unfolding escape_all
escape_all-IsAscii [] = tt
escape_all-IsAscii (c ∷ s) =
    append-IsAscii (escape c) (escape_all s) (escape-IsAscii c) (escape_all-IsAscii s)

quote-IsAscii : (s : Text) → IsAscii (quote s)
unfolding quote
quote-IsAscii s =
    (omega arith, append-IsAscii (escape_all s) (34 ∷ []) (escape_all-IsAscii s) (omega arith, tt))

AreDigits-IsAscii : (s : Text) → AreDigits s → IsAscii s
AreDigits-IsAscii [] v = tt
AreDigits-IsAscii (c ∷ s) v = (omega (arith, v.1), AreDigits-IsAscii s v.2)

Prints-IsAscii : (n : ℕ) (s : Text) → Prints n s → IsAscii s
Prints-IsAscii n [] v = absurd v
Prints-IsAscii n (c ∷ s) v = AreDigits-IsAscii (c ∷ s) v.0

module _ (is ks : Text) (items_ascii : IsAscii is) (keys_ascii : IsAscii ks) where
  cons-IsAscii :
      (x : Value) (xs : Items)
      → IsAscii (dumps (st is ks) x)
      → IsAscii (items_text is ks xs)
      → IsAscii (items_text is ks (cons x xs))
  unfolding join dumps
  cons-IsAscii x nil v w = v
  cons-IsAscii x (cons y ys) v w =
      append-IsAscii (dumps (st is ks) x) ((44 ∷ is) ++ items_text is ks (cons y ys)) v
        (omega arith, append-IsAscii is (items_text is ks (cons y ys)) items_ascii w)

  member-IsAscii :
      (k : Text) (v : Value)
      → IsAscii (dumps (st is ks) v)
      → IsAscii (quote k ++ ((58 ∷ ks) ++ dumps (st is ks) v))
  member-IsAscii k v w =
      append-IsAscii (quote k) ((58 ∷ ks) ++ dumps (st is ks) v) (quote-IsAscii k)
        (omega arith, append-IsAscii ks (dumps (st is ks) v) keys_ascii w)

  field-IsAscii :
      (k : Text) (v : Value) (fs : Fields)
      → IsAscii (dumps (st is ks) v)
      → IsAscii (members_text is ks fs)
      → IsAscii (members_text is ks (field k v fs))
  unfolding join dumps pairs
  field-IsAscii k v end a b = member-IsAscii k v a
  field-IsAscii k v (field j w fs) a b =
      let first = quote k ++ ((58 ∷ ks) ++ dumps (st is ks) v) in
      append-IsAscii first ((44 ∷ is) ++ members_text is ks (field j w fs)) (member-IsAscii k v a)
        (omega arith, append-IsAscii is (members_text is ks (field j w fs)) items_ascii b)

  mutual
    unfolding dumps join pairs brackets braces print_int

    pub dumps-IsAscii : (v : Value) → IsAscii (dumps (st is ks) v)
    dumps-IsAscii null = (omega arith, (omega arith, (omega arith, (omega arith, tt))))
    dumps-IsAscii (boolean true) = (omega arith, (omega arith, (omega arith, (omega arith, tt))))
    dumps-IsAscii (boolean false) =
        (omega arith, (omega arith, (omega arith, (omega arith, (omega arith, tt)))))
    dumps-IsAscii (int (pos n)) = Prints-IsAscii n (print_ℕ n) (print_ℕ-Prints n)
    dumps-IsAscii (int (negsuc n)) =
        (omega arith, Prints-IsAscii (suc n) (print_ℕ (suc n)) (print_ℕ-Prints (suc n)))
    dumps-IsAscii (str s) = quote-IsAscii s
    dumps-IsAscii (arr xs) = (
      omega arith,
      append-IsAscii (items_text is ks xs) (93 ∷ []) (items-IsAscii xs) (omega arith, tt),
    )
    dumps-IsAscii (obj fs) = (
      omega arith,
      append-IsAscii (members_text is ks fs) (125 ∷ []) (members-IsAscii fs) (omega arith, tt),
    )

    items-IsAscii : (xs : Items) → IsAscii (items_text is ks xs)
    items-IsAscii nil = tt
    items-IsAscii (cons x xs) = cons-IsAscii x xs (dumps-IsAscii x) (items-IsAscii xs)

    members-IsAscii : (fs : Fields) → IsAscii (members_text is ks fs)
    members-IsAscii end = tt
    members-IsAscii (field k v fs) = field-IsAscii k v fs (dumps-IsAscii v) (members-IsAscii fs)

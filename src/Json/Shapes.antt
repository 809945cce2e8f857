-- ===== src/Json/Shapes.antt =====
-- What `json.dumps` writes, by the first character, and the values that it can be read back from.
use omkit_python.Json.Decimal.{print_ℕ, print_int}
use omkit_python.Json.Strings.{unicode_escape, escape, escape_all, quote}
use omkit_python.Prelude.{
  ℕ, suc, ◌+◌, ◌≤◌, ◌≡◌, refl, inl, inr, true, false, none, [], ◌∷◌, ◌++◌, arith, eqb, length,
  length-append,
}
use omkit_python.Prelude.Text.{Text, codes, text_eq}
use omkit_python.Prelude.Int.{pos, negsuc}
use omkit_python.Json.{
  Value, null, boolean, int, str, arr, obj, Items, nil, cons, Fields, end, field, Style, dumps,
  get_field, brackets, braces,
}
use omkit_python.Json.Lexer.{is_space, skip}
use omkit_python.Json.Scalars.{IsScalars, escape-Forms}
use omkit_python.Json.Numbers.{Prints, print_ℕ-Prints}

-- Texts have no surrogates, and a key occurs once in its object.
unfoldable mutual
  pub IsReadable : Value → Type 0
  IsReadable null = Unit
  IsReadable (boolean b) = Unit
  IsReadable (int i) = Unit
  IsReadable (str s) = IsScalars s
  IsReadable (arr xs) = AreReadable xs
  IsReadable (obj fs) = HasReadable fs

  pub AreReadable : Items → Type 0
  AreReadable nil = Unit
  AreReadable (cons x xs) = IsReadable x × AreReadable xs

  pub HasReadable : Fields → Type 0
  HasReadable end = Unit
  HasReadable (field k v fs) = IsScalars k × IsReadable v × (get_field k fs ≡ none) × HasReadable fs

-- The fuel that reading a value takes.
unfoldable mutual
  pub size : Value → ℕ
  size null = 1
  size (boolean b) = 1
  size (int i) = 1
  size (str s) = 1
  size (arr xs) = suc (size_items xs)
  size (obj fs) = suc (size_fields fs)

  pub size_items : Items → ℕ
  size_items nil = 0
  size_items (cons x xs) = suc (size x + size_items xs)

  pub size_fields : Fields → ℕ
  size_fields end = 0
  size_fields (field k v fs) = suc (size v + size_fields fs)

-- A character that is no white space, comma or closing bracket.
abbrev pub Begins : ℕ → Type 0
Begins c = (is_space c ≡ false) × (eqb c 44 ≡ false) × (eqb c 93 ≡ false) × (eqb c 125 ≡ false)

abbrev pub Begun : Text → Type 0
Begun t = (c : ℕ) × ((r : Text) × ((t ≡ c ∷ r) × Begins c))

Prints-Begun : (n : ℕ) (s : Text) → Prints n s → Begun s
unfolding is_space
Prints-Begun n [] v = absurd v
Prints-Begun n (c ∷ s) (v, e, z) =
    (c, (s, (refl, (ground (arith, v), ground (arith, v), ground (arith, v), ground (arith, v)))))

pub dumps-Begun : (st : Style) (v : Value) → Begun (dumps st v)
unfolding dumps quote print_int brackets braces is_space
dumps-Begun st null = (110, (codes "ull", (refl, (refl, refl, refl, refl))))
dumps-Begun st (boolean true) = (116, (codes "rue", (refl, (refl, refl, refl, refl))))
dumps-Begun st (boolean false) = (102, (codes "alse", (refl, (refl, refl, refl, refl))))
dumps-Begun st (int (pos n)) = Prints-Begun n (print_ℕ n) (print_ℕ-Prints n)
dumps-Begun st (int (negsuc n)) = (45, (print_ℕ (suc n), (refl, (refl, refl, refl, refl))))
dumps-Begun st (str s) = (34, (_, (refl, (refl, refl, refl, refl))))
dumps-Begun st (arr xs) = (91, (_, (refl, (refl, refl, refl, refl))))
dumps-Begun st (obj fs) = (123, (_, (refl, (refl, refl, refl, refl))))

-- What has begun is not skipped.
pub skip-Begun : (t rest : Text) → Begun t → skip (t ++ rest) ≡ t ++ rest
unfolding skip
skip-Begun t rest (c, (r, (e, b))) = rw (e, skip, b.0) refl

abbrev pub AreSpaces : Text → Type 0
AreSpaces [] = Unit
AreSpaces (c ∷ s) = (is_space c ≡ true) × AreSpaces s

pub skip-AreSpaces : (s rest : Text) → AreSpaces s → skip (s ++ rest) ≡ skip rest
unfolding skip
skip-AreSpaces [] rest v = refl
skip-AreSpaces (c ∷ s) rest v = rw (v.0, skip) (skip-AreSpaces s rest v.1)

escape-long : (c : ℕ) → 1 ≤ length (escape c)
unfolding unicode_escape
escape-long c = elim (escape-Forms c) [
  | inl (x, (t, h, k)) ↦ rw t (omega arith)
  | inr (inl (t, a, b, d, up)) ↦ rw t (omega arith)
  | inr (inr (inl (t, lt))) ↦ rw t (omega arith)
  | inr (inr (inr (t, ge))) ↦ rw t (omega arith)
]

pub escape_all-long : (s : Text) → length s ≤ length (escape_all s)
unfolding escape_all
escape_all-long [] = omega arith
escape_all-long (c ∷ s) =
    omega (arith, escape-long c, escape_all-long s, length-append (escape c) (escape_all s))

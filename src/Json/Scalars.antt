-- ===== src/Json/Scalars.antt =====
-- `json.loads` reads strings and integers back as `json.dumps` writes them.
use omkit_python.Json.Strings.{hex_digit, unicode_escape, escape, escape_all}
use omkit_python.Prelude.{
  ℕ, zero, suc, ◌+◌, ◌-◌, ◌*◌, ◌/◌, ◌%◌, ◌<◌, ◌≤◌, ◌≡◌, ◌≢◌, ◌⊎◌, refl, inl, inr, true, false, some,
  [], ◌∷◌, ◌++◌, arith, ltb, leb, eqb, ◌&&◌, length, append_assoc, Bool-cases,
}
use omkit_python.Prelude.Text.{Text}
use omkit_python.Json.Lexer.{
  hex_value, hex4, low_surrogate, unicode_char, short_escape, read_char, read_string,
}

hex_value-hex_digit : (d : ℕ) → d < 16 → hex_value (hex_digit d) ≡ some d
unfolding hex_value hex_digit
hex_value-hex_digit d h = ground arith

-- What follows `\u` in the escape of a code unit.
abbrev hex_of : ℕ → Text → Text
hex_of n rest =
    hex_digit (n / 4096 % 16)
    ∷ hex_digit (n / 256 % 16)
    ∷ hex_digit (n / 16 % 16)
    ∷ hex_digit (n % 16)
    ∷ rest

hex4-hex_of : (n : ℕ) (rest : Text) → n < 65536 → hex4 (hex_of n rest) ≡ some (n, rest)
unfolding hex4
hex4-hex_of n rest h =
    let a = hex_value-hex_digit (n / 4096 % 16) (omega arith) in
    let b = hex_value-hex_digit (n / 256 % 16) (omega arith) in
    let c = hex_value-hex_digit (n / 16 % 16) (omega arith) in
    let d = hex_value-hex_digit (n % 16) (omega arith) in
    let sum : n / 4096 % 16 * 4096 + n / 256 % 16 * 256 + n / 16 % 16 * 16 + n % 16 ≡ n =
      omega (arith, h) in
    rw (hex4, a, b, c, d, sum) refl

-- A code point that is no surrogate.
abbrev pub IsScalar : ℕ → Type 0
IsScalar c = (c < 55296) ⊎ ((57344 ≤ c) × (c < 1114112))

unicode_char-basic :
    (n : ℕ) (rest : Text) → n < 65536 → IsScalar n → unicode_char (hex_of n rest) ≡ some (n, rest)
unfolding unicode_char
unicode_char-basic n rest h v = rw (unicode_char, hex4-hex_of n rest h) (ground (arith, h, v))

low_surrogate-hex_of :
    (l : ℕ) (rest : Text)
    → 56320 ≤ l
    → l ≤ 57343
    → low_surrogate (92 ∷ 117 ∷ hex_of l rest) ≡ some (l, rest)
unfolding low_surrogate
low_surrogate-hex_of l rest lo hi =
    rw (low_surrogate, hex4-hex_of l rest (omega (arith, hi))) (ground (arith, lo, hi))

surrogates :
    (h l : ℕ) (rest : Text)
    → 55296 ≤ h
    → h ≤ 56319
    → 56320 ≤ l
    → l ≤ 57343
    → unicode_char (hex_of h (92 ∷ 117 ∷ hex_of l rest))
      ≡ some (65536 + ((h - 55296) * 1024 + (l - 56320)), rest)
unfolding unicode_char
surrogates h l rest a b c d =
    rw (unicode_char, hex4-hex_of h (92 ∷ 117 ∷ hex_of l rest) (omega (arith, b)))
      (ground (arith, a, b, low_surrogate-hex_of l rest c d))

read_escape :
    (s rest : Text) (c : ℕ)
    → unicode_char s ≡ some (c, rest)
    → read_char (92 ∷ 117 ∷ s) ≡ some (some c, rest)
unfolding read_char
read_escape s rest c h = rw (read_char, h) refl

-- A character below the basic plane's end that is written as `\uXXXX`.
read_char-basic :
    (c : ℕ) (rest : Text)
    → c < 65536
    → IsScalar c
    → read_char (unicode_escape c ++ rest) ≡ some (some c, rest)
unfolding unicode_escape
read_char-basic c rest h v = read_escape (hex_of c rest) rest c (unicode_char-basic c rest h v)

read_char-pair :
    (c : ℕ) (rest : Text)
    → 65536 ≤ c
    → c < 1114112
    → read_char (
        (unicode_escape (55296 + (c - 65536) / 1024) ++ unicode_escape (56320 + (c - 65536) % 1024))
        ++ rest)
      ≡ some (some c, rest)
unfolding unicode_escape
read_char-pair c rest lo hi =
    let h = 55296 + (c - 65536) / 1024 in
    let l = 56320 + (c - 65536) % 1024 in
    let same : 65536 + ((h - 55296) * 1024 + (l - 56320)) ≡ c = omega (arith, lo) in
    let read =
      surrogates h l rest (omega arith) (omega (arith, lo, hi)) (omega arith) (omega arith) in
    read_escape (hex_of h (92 ∷ 117 ∷ hex_of l rest)) rest c (ground (arith, read, same))

read_char-printable :
    (c : ℕ) (rest : Text)
    → 32 ≤ c
    → c ≢ 34
    → c ≢ 92
    → rest ≢ []
    → read_char (c ∷ rest) ≡ some (some c, rest)
unfolding read_char
read_char-printable c [] a b d e = absurd (e refl)
read_char-printable c (x ∷ rest) a b d e = ground (arith, a, b, d)

-- The forms of an escape.
abbrev pub Short : ℕ → Text → Type 0
Short c t = (x : ℕ) × ((t ≡ 92 ∷ x ∷ []) × (eqb x 117 ≡ false) × (short_escape x ≡ some c))

abbrev pub Forms : ℕ → Text → Type 0
Forms c t =
    Short c t
    ⊎ (((t ≡ c ∷ []) × (32 ≤ c) × (c ≢ 34) × (c ≢ 92) × (c ≤ 126))
        ⊎ (((t ≡ unicode_escape c) × (c < 65536))
            ⊎ ((t
                  ≡ unicode_escape (55296 + (c - 65536) / 1024)
                    ++ unicode_escape (56320 + (c - 65536) % 1024))
                × (65536 ≤ c))))

as-Short :
    (c d x : ℕ)
    → eqb x 117 ≡ false
    → short_escape x ≡ some d
    → eqb c d ≡ true
    → Short c (92 ∷ x ∷ [])
as-Short c d x h k e = (x, (refl, h, ground (arith, k, e)))

pub escape-Forms : (c : ℕ) → Forms c (escape c)
unfolding escape short_escape
escape-Forms c = elim (Bool-cases (eqb c 34)) [
  | inl e ↦ rw (e, escape) (inl (as-Short c 34 34 refl refl e))
  | inr e0 ↦ elim (Bool-cases (eqb c 92)) [
    | inl e ↦ rw (e0, escape, e) (inl (as-Short c 92 92 refl refl e))
    | inr e1 ↦ elim (Bool-cases (eqb c 8)) [
      | inl e ↦ rw (e0, escape, e1, e) (inl (as-Short c 8 98 refl refl e))
      | inr e2 ↦ elim (Bool-cases (eqb c 9)) [
        | inl e ↦ rw (e0, escape, e1, e2, e) (inl (as-Short c 9 116 refl refl e))
        | inr e3 ↦ elim (Bool-cases (eqb c 10)) [
          | inl e ↦ rw (e0, escape, e1, e2, e3, e) (inl (as-Short c 10 110 refl refl e))
          | inr e4 ↦ elim (Bool-cases (eqb c 12)) [
            | inl e ↦ rw (e0, escape, e1, e2, e3, e4, e) (inl (as-Short c 12 102 refl refl e))
            | inr e5 ↦ elim (Bool-cases (eqb c 13)) [
              | inl e ↦ rw (e0, escape, e1, e2, e3, e4, e5, e) (inl (as-Short c 13 114 refl refl e))
              | inr e6 ↦ elim (Bool-cases (leb 32 c && leb c 126)) [
                | inl p ↦
                    rw (e0, escape, e1, e2, e3, e4, e5, e6, p)
                      (inr (
                        inl (
                          refl,
                          ground (arith, p),
                          ground (arith, e0),
                          ground (arith, e1),
                          ground (arith, p),
                        )))
                | inr q ↦ elim (Bool-cases (ltb c 65536)) [
                  | inl b ↦
                      rw (e0, escape, e1, e2, e3, e4, e5, e6, q, b)
                        (inr (inr (inl (refl, ground (arith, b)))))
                  | inr b ↦
                      rw (e0, escape, e1, e2, e3, e4, e5, e6, q, b)
                        (inr (inr (inr (refl, ground (arith, b)))))
                ]
              ]
            ]
          ]
        ]
      ]
    ]
  ]
]

read_char-short :
    (c x : ℕ) (rest : Text)
    → eqb x 117 ≡ false
    → short_escape x ≡ some c
    → read_char (92 ∷ x ∷ rest) ≡ some (some c, rest)
unfolding read_char
read_char-short c x rest h k = rw (h, read_char, k) refl

-- Whatever follows an escaped character, it is read back; something follows in a string.
read_char-escape :
    (c : ℕ) (rest : Text)
    → IsScalar c
    → rest ≢ []
    → read_char (escape c ++ rest) ≡ some (some c, rest)
read_char-escape c rest v e = elim (escape-Forms c) [
  | inl (x, (t, h, k)) ↦ rw t (read_char-short c x rest h k)
  | inr (inl (t, a, b, d, up)) ↦ rw t (read_char-printable c rest a b d e)
  | inr (inr (inl (t, lt))) ↦ rw t (read_char-basic c rest lt v)
  | inr (inr (inr (t, ge))) ↦ rw t (read_char-pair c rest ge (ground (arith, v)))
]

append_not_empty : (s : Text) (c : ℕ) (t : Text) → s ++ (c ∷ t) ≢ []
append_not_empty [] c t h = cc
append_not_empty (x ∷ s) c t h = cc

abbrev pub IsScalars : Text → Type 0
IsScalars [] = Unit
IsScalars (c ∷ s) = IsScalar c × IsScalars s

-- A text of characters that are no surrogates is read back from its escapes.
pub read_string-escape_all :
    (s rest : Text) (n : ℕ)
    → IsScalars s
    → length s < n
    → read_string n (escape_all s ++ (34 ∷ rest)) ≡ some (s, rest)
unfolding read_string escape_all
read_string-escape_all s rest zero v h = absurd (omega (arith, h))
read_string-escape_all [] [] (suc n) v h = refl
read_string-escape_all [] (x ∷ rest) (suc n) v h = refl
read_string-escape_all (c ∷ s) rest (suc n) v h =
    let tail = escape_all s ++ (34 ∷ rest) in
    let first = read_char-escape c tail v.0 (append_not_empty (escape_all s) 34 rest) in
    let later = read_string-escape_all s rest n v.1 (omega (arith, h)) in
    rw (append_assoc (escape c) (escape_all s) (34 ∷ rest), read_string, first, later) refl

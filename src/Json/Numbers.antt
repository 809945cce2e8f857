-- ===== src/Json/Numbers.antt =====
-- `json.loads` reads integers back as `json.dumps` writes them.
use omkit_python.Json.Decimal.{digits, print_ℕ}
use omkit_python.Prelude.{
  ℕ, zero, suc, ◌+◌, ◌-◌, ◌*◌, ◌/◌, ◌%◌, ◌<◌, ◌≤◌, ◌≡◌, refl, inl, inr, true, false, some, [], ◌∷◌,
  ◌++◌, arith, ltb, eqb, Bool-cases,
}
use omkit_python.Prelude.Text.{Text}
use mathlib.Core.Path.{subst}
use omkit_python.Json.Lexer.{is_digit, read_digits, is_float, read_number}

-- What may follow a number: no digit, and nothing that makes a float of it.
abbrev pub EndsNumber : Text → Type 0
EndsNumber [] = Unit
EndsNumber (c ∷ s) = (is_digit c ≡ false) × (is_float (c ∷ s) ≡ false)

-- Digits, and the value that they add to what was read before.
abbrev pub AreDigits : Text → Type 0
AreDigits [] = Unit
AreDigits (c ∷ s) = (48 ≤ c) × (c ≤ 57) × AreDigits s

abbrev pub value_of : ℕ → Text → ℕ
value_of acc [] = acc
value_of acc (c ∷ s) = value_of (acc * 10 + (c - 48)) s

append-AreDigits : (s t : Text) → AreDigits s → AreDigits t → AreDigits (s ++ t)
append-AreDigits [] t v w = w
append-AreDigits (c ∷ s) t v w = (v.0, v.1, append-AreDigits s t v.2 w)

value_of-append : (acc : ℕ) (s t : Text) → value_of acc (s ++ t) ≡ value_of (value_of acc s) t
value_of-append acc [] t = refl
value_of-append acc (c ∷ s) t = value_of-append (acc * 10 + (c - 48)) s t

is_digit-true : (c : ℕ) → 48 ≤ c → c ≤ 57 → is_digit c ≡ true
unfolding is_digit
is_digit-true c lo hi = ground (arith, lo, hi)

read_digits-all :
    (acc : ℕ) (s rest : Text)
    → AreDigits s
    → EndsNumber rest
    → read_digits acc (s ++ rest) ≡ (value_of acc s, rest)
unfolding read_digits
read_digits-all acc [] [] v e = refl
read_digits-all acc [] (c ∷ rest) v e = rw (e.0, read_digits) refl
read_digits-all acc (c ∷ s) rest v e =
    let digit : is_digit c ≡ true = is_digit-true c v.0 v.1 in
    rw (digit, read_digits) (read_digits-all (acc * 10 + (c - 48)) s rest v.2 e)

-- Digits of a number with enough fuel: its value, its digits, and that none is a zero in front.
abbrev pub Prints : ℕ → Text → Type 0
Prints n [] = ⊥
Prints n (c ∷ s) = AreDigits (c ∷ s) × (value_of 0 (c ∷ s) ≡ n) × ((c ≡ 48) → (s ≡ []) × (n ≡ 0))

append-Prints :
    (m d : ℕ) (s : Text) → Prints m s → 0 < m → d < 10 → Prints (m * 10 + d) (s ++ ((48 + d) ∷ []))
append-Prints m d [] v p lt = absurd v
append-Prints m d (c ∷ s) (v, e, z) p lt =
    let last : AreDigits ((48 + d) ∷ []) = (omega arith, omega (arith, lt), tt) in
    let sum = value_of-append 0 (c ∷ s) ((48 + d) ∷ []) in
    (
      append-AreDigits (c ∷ s) ((48 + d) ∷ []) v last,
      ground (arith, sum, e),
      λ h. absurd (omega (arith, (z h).1, p)),
    )

digits-Prints : (f n : ℕ) → n < f → Prints n (digits f n)
unfolding digits
digits-Prints zero n h = absurd (omega (arith, h))
digits-Prints (suc f) n h = elim (Bool-cases (ltb n 10)) [
  | inl lt ↦
      let small : n < 10 = ground (arith, lt) in
      rw (lt, digits)
        ((omega arith, omega (arith, small), tt), omega arith, λ e. (refl, omega (arith, e)))
  | inr ge ↦
      let large : 10 ≤ n = ground (arith, ge) in
      let rest =
        append-Prints (n / 10) (n % 10) (digits f (n / 10))
          (digits-Prints f (n / 10) (omega (arith, h, large))) (omega (arith, large))
          (omega arith) in
      let same : n / 10 * 10 + n % 10 ≡ n = omega arith in
      rw (ge, digits)
        (subst (λ (m : ℕ). Prints m (digits f (n / 10) ++ ((48 + n % 10) ∷ []))) same rest)
]

EndsNumber-is_float : (rest : Text) → EndsNumber rest → is_float rest ≡ false
unfolding is_float
EndsNumber-is_float [] h = refl
EndsNumber-is_float (c ∷ rest) h = h.1

-- A text that prints a number, without its sign, is read as this number.
pub read_number-Prints :
    (n : ℕ) (s rest : Text)
    → Prints n s
    → EndsNumber rest
    → read_number (s ++ rest) ≡ some (n, rest)
unfolding read_number
read_number-Prints n [] rest v h = absurd v
read_number-Prints n (c ∷ s) rest (v, e, z) h =
    let all = read_digits-all (0 * 10 + (c - 48)) s rest v.2 h in
    let float = EndsNumber-is_float rest h in
    let digit = is_digit-true c v.0 v.1 in
    elim (Bool-cases (eqb c 48)) [
      | inl is_zero ↦
          let (none_left, is_null) = z (ground (arith, is_zero)) in
          rw (is_zero, read_number, digit, none_left, is_null, float) refl
      | inr other ↦ rw (other, read_number, digit, all, float, e) refl
    ]

pub print_ℕ-Prints : (n : ℕ) → Prints n (print_ℕ n)
unfolding print_ℕ
print_ℕ-Prints n = digits-Prints (suc n) n (omega arith)

-- ===== src/Json/Decimal.antt =====
-- Python's `str(n)` for an int.
use omkit_python.Prelude.{ℕ, zero, suc, ◌+◌, ◌/◌, ◌%◌, [], ◌∷◌, ◌++◌, ltb, if◌then◌else◌}
use omkit_python.Prelude.Text.{Text}
use omkit_python.Prelude.Int.{ℤ, pos, negsuc}

-- The fuel is one more than the number, and each round divides by ten.
unfoldable pub digits : ℕ → ℕ → Text
digits zero n = []
digits (suc f) n =
    let rest = digits f (n / 10) ++ ((b'0' + n % 10) ∷ []) in
    if ltb n 10 then (b'0' + n) ∷ [] else rest

unfoldable pub print_ℕ : ℕ → Text
unfolding digits
print_ℕ n = digits (suc n) n

unfoldable pub print_int : ℤ → Text
unfolding print_ℕ
print_int (pos n) = print_ℕ n
print_int (negsuc n) = b'-' ∷ print_ℕ (suc n)

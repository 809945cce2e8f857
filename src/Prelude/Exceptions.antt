-- ===== src/Prelude/Exceptions.antt =====
-- A Python call that returns or raises.
use mathlib.Core.Path.{◌≡◌, refl}
use mathlib.Core.Bool.{Bool, true, false}

pub data Result (E A : Type 0) : Type 0 where
  ok : A → Result E A
  raise : E → Result E A

-- Whether the call returned.
abbrev pub returns : {E A : Type 0} → Result E A → Bool
returns (ok a) = true
returns (raise x) = false

infixl 5 ◌>>=◌
abbrev pub ◌>>=◌ : {E A B : Type 0} → Result E A → (A → Result E B) → Result E B
raise x >>= k = raise x
ok a >>= k = k a

module _ {E A B : Type 0} where
  -- A chain that returns: its first part returned, and so did the rest.
  pub >>=-eq-ok :
      (r : Result E A) (k : A → Result E B) {b : B}
      → (r >>= k) ≡ ok b
      → (a : A) × (r ≡ ok a) × (k a ≡ ok b)
  >>=-eq-ok (raise x) k h = cc
  >>=-eq-ok (ok a) k h = (a, refl, h)

infixl 5 ◌>>◌
abbrev pub ◌>>◌ : {E A B : Type 0} → Result E A → Result E B → Result E B
r >> k = r >>= λ _. k

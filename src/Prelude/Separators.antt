-- ===== src/Prelude/Separators.antt =====
-- A separator below 128 that two texts do not have tells them apart, in UTF-8 too.
use omkit_python.Prelude.{ℕ, ◌<◌, ◌≡◌, ◌≢◌, refl, List, [], ◌∷◌, ◌++◌, arith, append_assoc}
use omkit_python.Prelude.Text.{Text, utf8, utf8_char}
use mathlib.Core.Path.{ap, ◌∙◌, sym}

abbrev pub Avoids : ℕ → List ℕ → Type 0
Avoids d [] = Unit
Avoids d (x ∷ xs) = (x ≢ d) × Avoids d xs

append-Avoids : (d : ℕ) (xs ys : List ℕ) → Avoids d xs → Avoids d ys → Avoids d (xs ++ ys)
append-Avoids d [] ys h k = k
append-Avoids d (x ∷ xs) ys h k = (h.0, append-Avoids d xs ys h.1 k)

utf8_char-Avoids : (d c : ℕ) → d < 128 → c ≢ d → Avoids d (utf8_char c)
unfolding utf8_char
utf8_char-Avoids d c lt h = ground arith

pub utf8-Avoids : (d : ℕ) (s : Text) → d < 128 → Avoids d s → Avoids d (utf8 s)
unfolding utf8
utf8-Avoids d [] lt h = tt
utf8-Avoids d (c ∷ s) lt h =
    append-Avoids d (utf8_char c) (utf8 s) (utf8_char-Avoids d c lt h.0) (utf8-Avoids d s lt h.1)

pub split_at :
    (d : ℕ) (xs ys us vs : List ℕ)
    → Avoids d xs
    → Avoids d ys
    → xs ++ (d ∷ us) ≡ ys ++ (d ∷ vs)
    → (xs ≡ ys) × (us ≡ vs)
split_at d [] [] us vs h k e = ground arith
split_at d [] (y ∷ ys) us vs h k e = absurd (ground arith)
split_at d (x ∷ xs) [] us vs h k e = absurd (ground arith)
split_at d (x ∷ xs) (y ∷ ys) us vs h k e =
    ground (arith, split_at d xs ys us vs h.1 k.1 (ground arith))

pub utf8-append : (s t : Text) → utf8 (s ++ t) ≡ utf8 s ++ utf8 t
unfolding utf8
utf8-append [] t = refl
utf8-append (c ∷ s) t =
    ap (◌++◌ (utf8_char c)) (utf8-append s t) ∙ sym (append_assoc (utf8_char c) (utf8 s) (utf8 t))

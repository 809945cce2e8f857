-- ===== src/Crypto/Binding.antt =====
-- omkit/kms/localdev.py: the user and the purpose in the associated data of a wrapped key.
use omkit_python.Prelude.{◌≡◌, [], ◌∷◌, ◌++◌, arith, append_assoc}
use mathlib.Core.Path.{ap, ◌∙◌, sym}
use omkit_python.Prelude.Text.{Text, Bytes, utf8}
use omkit_python.Prelude.Separators.{Avoids, utf8-Avoids, split_at, utf8-append}
use omkit_python.Crypto.{bind_aad}

bar_bytes : (s : Text) (r : Text) → utf8 (s ++ (b'|' ∷ r)) ≡ utf8 s ++ (b'|' ∷ utf8 r)
unfolding utf8
bar_bytes s r = utf8-append s (b'|' ∷ r)

bind_aad-bytes :
    (p u : Text) (aad : Bytes) → bind_aad p u aad ≡ utf8 p ++ (b'|' ∷ (utf8 u ++ (b'|' ∷ aad)))
unfolding bind_aad utf8
bind_aad-bytes p u aad =
    rw (bar_bytes p (u ++ (b'|' ∷ [])), bar_bytes u [])
      (append_assoc (utf8 p) (b'|' ∷ (utf8 u ++ (b'|' ∷ []))) aad
        ∙ ap (λ r. utf8 p ++ (b'|' ∷ r)) (append_assoc (utf8 u) (b'|' ∷ []) aad))

-- The associated data of a wrapped key tells purpose, user and the caller's data apart, for
-- purposes and users without a bar.
pub bind_aad_separates :
    (p q u w : Text) (aad bad : Bytes)
    → Avoids b'|' p
    → Avoids b'|' q
    → Avoids b'|' u
    → Avoids b'|' w
    → bind_aad p u aad ≡ bind_aad q w bad
    → (utf8 p ≡ utf8 q) × (utf8 u ≡ utf8 w) × (aad ≡ bad)
bind_aad_separates p q u w aad bad hp hq hu hw e =
    let e' = sym (bind_aad-bytes p u aad) ∙ e ∙ bind_aad-bytes q w bad in
    let first =
      split_at b'|' (utf8 p) (utf8 q) (utf8 u ++ (b'|' ∷ aad)) (utf8 w ++ (b'|' ∷ bad))
        (utf8-Avoids b'|' p (omega arith) hp) (utf8-Avoids b'|' q (omega arith) hq) e' in
    let second =
      split_at b'|' (utf8 u) (utf8 w) aad bad (utf8-Avoids b'|' u (omega arith) hu)
        (utf8-Avoids b'|' w (omega arith) hw) first.1 in
    (first.0, second.0, second.1)

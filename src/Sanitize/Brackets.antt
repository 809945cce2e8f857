-- ===== src/Sanitize/Brackets.antt =====
-- omkit/sanitize.py: what the scan for the closing bracket finds.
use omkit_python.Prelude.{
  ℕ, zero, suc, ◌+◌, ◌≡◌, ◌≢◌, refl, Bool, true, false, Option, none, some, [], ◌∷◌, arith,
  if◌then◌else◌, ◌==◌, nat_eq, eqb, inl, inr, Bool-cases,
}
use omkit_python.Prelude.Text.{Text}
use omkit_python.Json.{Value}
use omkit_python.Sanitize.Model.{scan}

abbrev pub count : ℕ → Text → ℕ
count b [] = 0
count b (c ∷ s) = (if c == b then 1 else 0) + count b s

-- The brackets of a text, and `depth` that were open before it, are closed.
abbrev pub balances : (bracket close depth : ℕ) → Text → Bool
balances b c d t = eqb (d + count b t) (count c t)

abbrev pub push : ℕ → Option Text → Option Text
push c none = none
push c (some t) = some (c ∷ t)

-- The shortest prefix, not empty, that passes a test.
unfoldable pub first_prefix : (Text → Bool) → Text → Option Text
first_prefix p [] = none
first_prefix p (c ∷ s) =
    let rest = push c (first_prefix (λ t. p (c ∷ t)) s) in
    if p (c ∷ []) then some (c ∷ []) else rest

first_prefix_ext :
    (p q : Text → Bool) (s : Text) → ((t : Text) → p t ≡ q t) → first_prefix p s ≡ first_prefix q s
unfolding first_prefix
first_prefix_ext p q [] h = refl
first_prefix_ext p q (c ∷ s) h =
    rw (h (c ∷ []), first_prefix_ext (λ t. p (c ∷ t)) (λ t. q (c ∷ t)) s (λ t. h (c ∷ t))) refl

balances_up :
    (b c d x : ℕ) (t : Text)
    → b ≢ c
    → (x == b) ≡ true
    → balances b c (suc (suc d)) t ≡ balances b c (suc d) (x ∷ t)
balances_up b c d x t ne h = ground arith

balances_down :
    (b c d x : ℕ) (t : Text)
    → (x == b) ≡ false
    → (x == c) ≡ true
    → balances b c (suc d) t ≡ balances b c (suc (suc d)) (x ∷ t)
balances_down b c d x t h k = ground arith

balances_same :
    (b c d x : ℕ) (t : Text)
    → (x == b) ≡ false
    → (x == c) ≡ false
    → balances b c d t ≡ balances b c d (x ∷ t)
balances_same b c d x t h k = ground arith

module _ (space word : ℕ → Bool) (same_letter : ℕ → ℕ → Bool) (loads : Text → Option Value)
    (pretty : Value → Text) where
  scan_from :
      (b c d : ℕ) (s : Text)
      → b ≢ c
      → scan space word same_letter loads pretty b c (suc d) s
        ≡ first_prefix (balances b c (suc d)) s
  unfolding scan first_prefix
  scan_from b c d [] ne = refl
  scan_from b c d (x ∷ s) ne = elim (Bool-cases (x == b)) [
    | inl up ↦ ground (
      arith,
      up,
      scan_from b c (suc d) s ne,
      first_prefix_ext (balances b c (suc (suc d))) (λ t. balances b c (suc d) (x ∷ t)) s
          (λ t. balances_up b c d x t ne up),
    )
    | inr other ↦ elim (Bool-cases (x == c)) [
      | inl down ↦ close_at d other down (λ e. scan_from b c e s ne)
      | inr same ↦ ground (
        arith,
        other,
        same,
        scan_from b c d s ne,
        first_prefix_ext (balances b c (suc d)) (λ t. balances b c (suc d) (x ∷ t)) s
            (λ t. balances_same b c (suc d) x t other same),
      )
    ]
  ]
    where
      close_at :
          (d : ℕ)
          → (x == b) ≡ false
          → (x == c) ≡ true
          → ((e : ℕ)
              → scan space word same_letter loads pretty b c (suc e) s
                ≡ first_prefix (balances b c (suc e)) s)
          → scan space word same_letter loads pretty b c (suc d) (x ∷ s)
            ≡ first_prefix (balances b c (suc d)) (x ∷ s)
      close_at zero h k ih = ground (arith, h, k)
      close_at (suc e) h k ih = ground (
        arith,
        h,
        k,
        ih e,
        first_prefix_ext (balances b c (suc e)) (λ t. balances b c (suc (suc e)) (x ∷ t)) s
            (λ t. balances_down b c e x t h k),
      )

  -- From an opening bracket, the scan finds the shortest prefix that is not empty and has as many
  -- closing as opening brackets, if there is one, and nothing otherwise. Brackets within strings
  -- count too.
  pub scan_first_balanced :
      (b c : ℕ) (s : Text)
      → b ≢ c
      → scan space word same_letter loads pretty b c 0 (b ∷ s)
        ≡ first_prefix (balances b c 0) (b ∷ s)
  unfolding scan first_prefix
  scan_first_balanced b c s ne = ground (
    arith,
    scan_from b c 0 s ne,
    first_prefix_ext (balances b c 1) (λ t. balances b c 0 (b ∷ t)) s (λ t. raised t),
  )
    where
      raised : (t : Text) → balances b c 1 t ≡ balances b c 0 (b ∷ t)
      raised t = ground arith

-- ===== src/Prelude/Unique.antt =====
-- A dict lists no key twice. What `del` and a write do to the list of its values.
use omkit_python.Prelude.{ℕ, ◌+◌, ◌≡◌, refl, none, some, [], ◌∷◌, arith, Eq}
use omkit_python.Prelude.Dict.{Dict, lookup, insert, erase, lookup-insert, lookup-erase}

module _ {ℓ κ} {K : Type ℓ} {V : Type κ} ⦃e : Eq K⦄ where
  abbrev pub IsUnique : Dict K V → Type κ
  IsUnique [] = Unit
  IsUnique ((k, v) ∷ d) = (lookup k d ≡ none) × IsUnique d

  pub insert-IsUnique : (k : K) (v : V) (d : Dict K V) → IsUnique d → IsUnique (insert k v d)
  unfolding insert lookup
  insert-IsUnique k v [] u = ground arith
  insert-IsUnique k v ((j, w) ∷ d) u =
      ground
        (arith, insert-IsUnique k v d u.1, lookup-insert k j v d, e.same_iff j k, e.same_iff k j)

  pub erase-IsUnique : (k : K) (d : Dict K V) → IsUnique d → IsUnique (erase k d)
  unfolding erase
  erase-IsUnique k [] u = tt
  erase-IsUnique k ((j, w) ∷ d) u =
      ground (arith, erase-IsUnique k d u.1, lookup-erase k j d, e.same_iff k j)

  erase_absent : (k : K) (d : Dict K V) → lookup k d ≡ none → erase k d ≡ d
  unfolding erase lookup
  erase_absent k [] h = refl
  erase_absent k ((j, w) ∷ d) h = ground (arith, erase_absent k d)

  -- How often a number is the image of a value of the dict.
  unfoldable pub tally : (V → ℕ) → Dict K V → ℕ
  tally f [] = 0
  tally f ((k, v) ∷ d) = f v + tally f d

  -- `del` of a key takes its value out.
  pub tally-erase :
      (f : V → ℕ) (k : K) (v : V) (d : Dict K V)
      → IsUnique d
      → lookup k d ≡ some v
      → tally f d ≡ f v + tally f (erase k d)
  unfolding erase lookup tally
  tally-erase f k v [] u h = cc
  tally-erase f k v ((j, w) ∷ d) u h =
      ground (arith, e.same_iff j k, tally-erase f k v d u.1, erase_absent k d)

  -- A write to a new key adds its value.
  pub tally-insert :
      (f : V → ℕ) (k : K) (v : V) (d : Dict K V)
      → lookup k d ≡ none
      → tally f (insert k v d) ≡ f v + tally f d
  unfolding insert lookup tally
  tally-insert f k v [] h = refl
  tally-insert f k v ((j, w) ∷ d) h = ground (arith, tally-insert f k v d)

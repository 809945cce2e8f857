-- ===== src/Sanitize/Blocks.antt =====
-- omkit/sanitize.py: the removal of blocks, and that its loop ends.
use omkit_python.Prelude.{
  ℕ, zero, suc, ◌+◌, ◌≤◌, ◌≡◌, refl, ◌∙◌, ap, inl, inr, Bool, true, false, some, [], ◌∷◌, ◌++◌,
  arith, length, All, length-append, Option-cases,
}
use omkit_python.Prelude.Text.{Text}
use omkit_python.Sanitize.{after, skip_to, remove_from, remove_blocks}

module _ (same : ℕ → ℕ → Bool) where
  after-length : (p s r : Text) → after same p s ≡ some r → length r + length p ≤ length s
  unfolding after
  after-length [] s r h = ground (arith, h)
  after-length (c ∷ p) [] r h = cc
  after-length (c ∷ p) (d ∷ s) r h = ground (arith, after-length p s r, h)

  skip_to-length : (p s r : Text) → skip_to same p s ≡ some r → length r ≤ length s
  unfolding skip_to
  skip_to-length p [] r h = omega (arith, after-length p [] r h)
  skip_to-length p (c ∷ s) r h = elim (Option-cases (after same p (c ∷ s))) [
    | inl e ↦ ground (arith, h, e, skip_to-length p s r)
    | inr (r', e) ↦ ground (arith, h, e, after-length p (c ∷ s) r' e)
  ]

  pub remove_from_enough :
      (n m o : ℕ) (open_tag close_tag s : Text)
      → length s ≤ n
      → length s ≤ m
      → remove_from same n (o ∷ open_tag) close_tag s
        ≡ remove_from same m (o ∷ open_tag) close_tag s
  unfolding remove_from
  remove_from_enough zero zero o op cl s h k = refl
  remove_from_enough (suc n) zero o op cl [] h k = refl
  remove_from_enough (suc n) zero o op cl (c ∷ s) h k = absurd (omega arith)
  remove_from_enough zero (suc m) o op cl [] h k = refl
  remove_from_enough zero (suc m) o op cl (c ∷ s) h k = absurd (omega arith)
  remove_from_enough (suc n) (suc m) o op cl [] h k = refl
  remove_from_enough (suc n) (suc m) o op cl (c ∷ s) h k =
      let step = ap (◌∷◌ c) (remove_from_enough n m o op cl s (omega arith) (omega arith)) in
      elim (Option-cases (after same (o ∷ op) (c ∷ s))) [
        | inl e ↦ rw (e, remove_from) step
        | inr (inner, e) ↦ elim (Option-cases (skip_to same cl inner)) [
          | inl e' ↦ rw (e, remove_from, e') step
          | inr (rest, e') ↦
              let shorter = after-length (o ∷ op) (c ∷ s) inner e in
              let left = skip_to-length cl inner rest e' in
              rw (e, remove_from, e')
                (remove_from_enough n m o op cl rest (omega (arith, shorter, left))
                  (omega (arith, shorter, left)))
        ]
      ]

  module _ (self : (c : ℕ) → same c c ≡ true) where
    after_self : (p s : Text) → after same p (p ++ s) ≡ some s
    unfolding after
    after_self [] s = refl
    after_self (c ∷ p) s = ground (arith, self c, after_self p s)

    skip_to_first :
        (c : ℕ) (close_tag body post : Text)
        → All (λ d. same c d ≡ false) body
        → skip_to same (c ∷ close_tag) (body ++ ((c ∷ close_tag) ++ post)) ≡ some post
    unfolding skip_to after
    skip_to_first c cl [] post h = ground (arith, self c, after_self cl post)
    skip_to_first c cl (d ∷ body) post h = ground (arith, h.0, skip_to_first c cl body post h.1)

    block_from :
        (n o c : ℕ) (op cl body post : Text)
        → All (λ d. same c d ≡ false) body
        → remove_from same (suc n) (o ∷ op) (c ∷ cl) ((o ∷ op) ++ (body ++ ((c ∷ cl) ++ post)))
          ≡ remove_from same n (o ∷ op) (c ∷ cl) post
    unfolding remove_from
    block_from n o c op cl body post h =
        rw
          (
            after_self (o ∷ op) (body ++ ((c ∷ cl) ++ post)),
            remove_from,
            skip_to_first c cl body post h,
          )
          refl

    prefix_from :
        (n o c : ℕ) (op cl pre rest : Text)
        → All (λ d. same o d ≡ false) pre
        → length (pre ++ rest) ≤ n
        → remove_from same n (o ∷ op) (c ∷ cl) (pre ++ rest)
          ≡ pre ++ remove_from same (length rest) (o ∷ op) (c ∷ cl) rest
    unfolding remove_from after
    prefix_from n o c op cl [] rest h k =
        remove_from_enough n (length rest) o op (c ∷ cl) rest k (omega arith)
    prefix_from zero o c op cl (d ∷ pre) rest h k = absurd (omega arith)
    prefix_from (suc n) o c op cl (d ∷ pre) rest h k =
        rw (h.0, remove_from) (ap (◌∷◌ d) (prefix_from n o c op cl pre rest h.1 (omega arith)))

    -- Of a text that starts with `pre`, a block and `post`, where `pre` has no letter that opens a tag
    -- and the block none that opens the closing tag, the block goes, with its tags and whatever it
    -- holds, `pre` stays as it is, and the rest is treated in the same way.
    pub remove_blocks_first :
        (o c : ℕ) (op cl pre body post : Text)
        → All (λ d. same o d ≡ false) pre
        → All (λ d. same c d ≡ false) body
        → remove_blocks same (o ∷ op) (c ∷ cl) (pre ++ ((o ∷ op) ++ (body ++ ((c ∷ cl) ++ post))))
          ≡ pre ++ remove_blocks same (o ∷ op) (c ∷ cl) post
    unfolding remove_blocks
    remove_blocks_first o c op cl pre body post h k =
        let inner = (o ∷ op) ++ (body ++ ((c ∷ cl) ++ post)) in
        prefix_from (length (pre ++ inner)) o c op cl pre inner h (omega arith)
        ∙ ap (◌++◌ pre) (
            block_from (length (op ++ (body ++ ((c ∷ cl) ++ post)))) o c op cl body post k
            ∙ remove_from_enough (length (op ++ (body ++ ((c ∷ cl) ++ post)))) (length post) o op
                (c ∷ cl) post
                (omega (
                  arith,
                  length-append {0} op (body ++ ((c ∷ cl) ++ post)),
                  length-append {0} body ((c ∷ cl) ++ post),
                  length-append {0} cl post,
                ))
                (omega arith))

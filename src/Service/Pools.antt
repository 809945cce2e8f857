-- ===== src/Service/Pools.antt =====
-- omkit/dbpool.py: the address that asyncpg is given.
use omkit_python.Prelude.{
  ◌≡◌, ◌∙◌, ap, inl, inr, true, none, some, [], ◌∷◌, ◌++◌, nat_eq, arith, Option-cases,
}
use mathlib.Core.Path.{subst⁻¹}
use omkit_python.Prelude.Text.{Text, codes}
use omkit_python.Sanitize.{after, exactly}
use omkit_python.Service.{starts_authority, after_dialect, without_dialect, normalize_dsn}

-- A text that starts with "://".
after_dialect-starts : (s r : Text) → after_dialect s ≡ some r → starts_authority r ≡ true
unfolding after_dialect
after_dialect-starts s r h = ground (arith, h)

plain_postgresql :
    (r : Text)
    → starts_authority r ≡ true
    → normalize_dsn (codes "postgresql" ++ r) ≡ codes "postgresql" ++ r
unfolding normalize_dsn without_dialect after
plain_postgresql (c ∷ d ∷ e ∷ s) h = ground (arith, h)
plain_postgresql (c ∷ d ∷ []) h = cc
plain_postgresql (c ∷ []) h = cc
plain_postgresql [] h = cc

plain_postgres :
    (r : Text)
    → starts_authority r ≡ true
    → normalize_dsn (codes "postgres" ++ r) ≡ codes "postgres" ++ r
unfolding normalize_dsn without_dialect after
plain_postgres (c ∷ d ∷ e ∷ s) h = ground (arith, h)
plain_postgres (c ∷ d ∷ []) h = cc
plain_postgres (c ∷ []) h = cc
plain_postgres [] h = cc

without_dialect-shape :
    (scheme s t : Text)
    → without_dialect scheme s ≡ some t
    → (r : Text) × (t ≡ scheme ++ r) × (starts_authority r ≡ true)
unfolding without_dialect
without_dialect-shape scheme s t h = elim (Option-cases (after exactly (scheme ++ codes "+") s)) [
  | inl e ↦ absurd (ground (arith, e, h))
  | inr (a, e) ↦ elim (Option-cases (after_dialect a)) [
    | inl e' ↦ absurd (ground (arith, e, e', h))
    | inr (r, e') ↦ (r, ground (arith, e, e', h), after_dialect-starts a r e')
  ]
]

long : (s t : Text) → without_dialect (codes "postgresql") s ≡ some t → normalize_dsn s ≡ t
unfolding normalize_dsn
long s t e = ground (arith, e)

short :
    (s t : Text)
    → without_dialect (codes "postgresql") s ≡ none
    → without_dialect (codes "postgres") s ≡ some t
    → normalize_dsn s ≡ t
unfolding normalize_dsn
short s t e e' = ground (arith, e, e')

other :
    (s : Text)
    → without_dialect (codes "postgresql") s ≡ none
    → without_dialect (codes "postgres") s ≡ none
    → normalize_dsn s ≡ s
unfolding normalize_dsn
other s e e' = ground (arith, e, e')

-- An address that was normalized stays as it is: `_normalize_dsn` is idempotent on every text.
pub normalize_dsn-normalize_dsn : (s : Text) → normalize_dsn (normalize_dsn s) ≡ normalize_dsn s
normalize_dsn-normalize_dsn s = elim (Option-cases (without_dialect (codes "postgresql") s)) [
  | inr (t, e) ↦
      let (r, shape, starts) = without_dialect-shape (codes "postgresql") s t e in
      subst⁻¹ (λ (x : Text). normalize_dsn x ≡ x) (long s t e ∙ shape) (plain_postgresql r starts)
  | inl e ↦ elim (Option-cases (without_dialect (codes "postgres") s)) [
    | inr (t, e') ↦
        let (r, shape, starts) = without_dialect-shape (codes "postgres") s t e' in
        subst⁻¹ (λ (x : Text). normalize_dsn x ≡ x) (short s t e e' ∙ shape)
          (plain_postgres r starts)
    | inl e' ↦ ap normalize_dsn (other s e e')
  ]
]

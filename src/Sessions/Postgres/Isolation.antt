-- ===== src/Sessions/Postgres/Isolation.antt =====
-- omkit/sessions.py: what a caller of `PostgresSessionStore` that names a tenant can read and
-- delete.
use omkit_python.Prelude.{
  ℕ, ◌<◌, ◌≡◌, inl, inr, Bool, true, false, Option, none, some, ◌==◌, ◌&&◌, if◌then◌else◌, arith,
  Option-cases,
}
use omkit_python.Prelude.Text.{Text, Bytes, text_eq, text_beq_iff}
use omkit_python.Prelude.Dict.{lookup, lookup-erase}
use omkit_python.Prelude.Exceptions.{ok, ◌>>=◌}
use omkit_python.Json.{Value, Column}
use omkit_python.Sessions.{Session}
use omkit_python.Sessions.Postgres.{
  Row, Table, live_row, other_tenant, session_of, get, delete_of, delete,
}

-- Whether the row belongs to the tenant.
abbrev pub owned : Text → Option Row → Bool
owned id none = false
owned id (some r) = r.tenant_id == id

module _ (loads_bytes : Bytes → Option Value) (loads_text : Text → Option Value)
    (as_uuid : Text → Option Text) (jsonb : Text → Column) where
  pub session_of_ok :
      (token : Text) (r : Row) (s : Session)
      → session_of loads_bytes loads_text as_uuid jsonb token r ≡ ok s
      → (s.token ≡ token)
        × (s.tenant_id ≡ r.tenant_id)
        × (s.expires_at ≡ r.expires_at)
        × (s.created_at ≡ r.created_at)
  unfolding session_of
  session_of_ok token r s h = ground (arith, h)

  -- What `get` returns to a caller that names a tenant is a session of this tenant, under the
  -- token that was asked for, not expired, and a row of the table.
  pub get_isolated :
      (now : ℕ) (token q : Text) (t : Table) (s : Session)
      → get loads_bytes loads_text as_uuid jsonb now token (some q) t ≡ ok s
      → (s.tenant_id ≡ q)
        × (s.token ≡ token)
        × (now < s.expires_at)
        × (owned q (lookup token t) ≡ true)
  unfolding get live_row other_tenant
  get_isolated now token q t s h = elim (Option-cases (lookup token t)) [
    | inl e ↦ absurd (ground (arith, h, e))
    | inr (r, e) ↦ ground (arith, h, e, text_beq_iff r.tenant_id q, session_of_ok token r s)
  ]

  -- A caller that names a tenant whose id is a UUID deletes the row of the token if it belongs to
  -- this tenant, and no other row of the table.
  pub delete_isolated :
      (token q id k : Text) (t : Table)
      → as_uuid q ≡ some id
      → (delete loads_bytes loads_text as_uuid jsonb token (some q) t >>= (λ t'. ok (lookup k t')))
        ≡ ok (if token == k && owned id (lookup token t) then none else lookup k t)
  unfolding delete delete_of
  delete_isolated token q id k t e = elim (Option-cases (lookup token t)) [
    | inl absent ↦ ground (arith, e, absent)
    | inr (r, found) ↦ ground (arith, e, found, lookup-erase token k t)
  ]

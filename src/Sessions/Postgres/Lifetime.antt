-- ===== src/Sessions/Postgres/Lifetime.antt =====
-- omkit/sessions.py: what `PostgresSessionStore.get` answers after `put`.
use omkit_python.Prelude.{
  ℕ, ◌≡◌, inl, inr, Bool, true, Option, none, some, ◌==◌, ◌&&◌, if◌then◌else◌, arith, Option-cases,
  ltb,
}
use omkit_python.Prelude.Text.{Text, Bytes, text_eq, text_beq_iff}
use omkit_python.Prelude.Dict.{lookup, lookup-insert}
use omkit_python.Prelude.Exceptions.{ok, raise, ◌>>=◌}
use omkit_python.Json.{Value, Column, dumps, plain}
use omkit_python.Sessions.{Session, not_found, parse_payload}
use omkit_python.Sessions.Postgres.{Row, Table, live_row, other_tenant, upsert, put, get}

-- The tenant and the age of a token's row after a write: those of the old row, if there was one.
abbrev pub owner : Text → Option Row → Text
owner id none = id
owner id (some r) = r.tenant_id

abbrev pub born : ℕ → Option Row → ℕ
born now none = now
born now (some r) = r.created_at

abbrev pub matches : Option Text → Text → Bool
matches none id = true
matches (some q) id = id == q

module _ (loads_bytes : Bytes → Option Value) (loads_text : Text → Option Value)
    (as_uuid : Text → Option Text) (jsonb : Text → Column) where
  abbrev written : ℕ → Text → Session → Option Row → Row
  written now id s old = record {
    tenant_id = owner id old;
    payload = jsonb (dumps plain s.payload);
    created_at = born now old;
    expires_at = s.expires_at;
  }

  upsert-written :
      (now : ℕ) (id : Text) (s : Session) (t : Table)
      → lookup s.token (upsert loads_bytes loads_text as_uuid jsonb now id s t)
        ≡ some (written now id s (lookup s.token t))
  unfolding upsert
  upsert-written now id s t = elim (Option-cases (lookup s.token t)) [
    | inl e ↦ ground (
      arith,
      e,
      lookup-insert s.token s.token (written now id s none) t,
      text_beq_iff s.token s.token,
    )
    | inr (r, e) ↦ ground (
      arith,
      e,
      lookup-insert s.token s.token (written now id s (some r)) t,
      text_beq_iff s.token s.token,
    )
  ]

  get-row :
      (now : ℕ) (token : Text) (q : Option Text) (t : Table) (r : Row) (v : Value)
      → lookup token t ≡ some r
      → parse_payload loads_bytes loads_text r.payload ≡ ok v
      → get loads_bytes loads_text as_uuid jsonb now token q t ≡ (
          if ltb now r.expires_at && matches q r.tenant_id
          then ok (record {
            token = token;
            tenant_id = r.tenant_id;
            payload = v;
            expires_at = r.expires_at;
            created_at = r.created_at;
          })
          else raise not_found)
  unfolding get live_row other_tenant
  get-row now token none t r v e p = ground (arith, e, p)
  get-row now token (some q) t r v e p = ground (arith, e, p)

  -- Let the tenant of a session be a UUID, and let the driver hand over its payload as it was
  -- written. After `put`, `get` returns the session until it expires, to callers that name no
  -- tenant or the one of the row, and raises NotFound afterwards and for every other tenant. The
  -- tenant of the row is the canonical form of the session's, or, if the token was in use, that of
  -- the row that was there.
  pub get-put :
      (now later : ℕ) (s : Session) (q : Option Text) (id : Text) (t : Table)
      → as_uuid s.tenant_id ≡ some id
      → parse_payload loads_bytes loads_text (jsonb (dumps plain s.payload)) ≡ ok s.payload
      → (put loads_bytes loads_text as_uuid jsonb now s t
          >>= get loads_bytes loads_text as_uuid jsonb later s.token q)
        ≡ (if ltb later s.expires_at && matches q (owner id (lookup s.token t))
            then ok (record {
              token = s.token;
              tenant_id = owner id (lookup s.token t);
              payload = s.payload;
              expires_at = s.expires_at;
              created_at = born now (lookup s.token t);
            })
            else raise not_found)
  unfolding put
  get-put now later s q id t e p =
      rw (e, put)
        (get-row later s.token q (upsert loads_bytes loads_text as_uuid jsonb now id s t)
          (written now id s (lookup s.token t)) s.payload (upsert-written now id s t) p)

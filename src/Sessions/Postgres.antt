-- ===== src/Sessions/Postgres.antt =====
-- omkit/sessions.py: `PostgresSessionStore`, on a pool that bypasses row level security, as its
-- docstring asks for. The table `sessions` maps a token, its key, to the other columns. Parameters
-- are `json.loads`, the cast of a text to uuid and back, which gives the canonical form, and the
-- value that the driver hands over for a jsonb column after a text was written to it.

pub mod Lifetime
pub mod Isolation
pub mod Listing
mod Tests
use omkit_python.Prelude.{
  ℕ, Bool, true, false, not, ◌&&◌, Option, none, some, List, [], ◌∷◌, if◌then◌else◌, ltb, ◌==◌,
}
use omkit_python.Prelude.Text.{Text, Bytes, text_eq}
use omkit_python.Prelude.Dict.{Dict, lookup, insert, erase}
use omkit_python.Prelude.Exceptions.{Result, ok, raise, ◌>>=◌}
use omkit_python.Json.{Value, Column, dumps, plain}
use omkit_python.Sessions.{Session, Error, not_found, data_error, or_raise, parse_payload}

pub record Row : Type 0 where
  pub tenant_id : Text
  pub payload : Column
  pub created_at : ℕ
  pub expires_at : ℕ

abbrev pub Table : Type 0
Table = Dict Text Row

-- `WHERE token = $1 AND expires_at > now()`
unfoldable pub live_row : (now : ℕ) → Text → Table → Option Row
live_row now token t = elim (lookup token t) [
  | none ↦ none
  | some r ↦ if ltb now r.expires_at then some r else none
]

-- `tenant_id is not None and row["tenant_id"] != tenant_id`
unfoldable pub other_tenant : Option Text → Row → Bool
other_tenant none r = false
other_tenant (some tenant_id) r = not (r.tenant_id == tenant_id)

-- `WHERE tenant_id = $1::uuid AND expires_at > now()`
unfoldable pub live_rows : (now : ℕ) → Text → Table → Table
live_rows now tenant_id [] = []
live_rows now tenant_id ((token, r) ∷ t) =
    let rest = live_rows now tenant_id t in
    if r.tenant_id == tenant_id && ltb now r.expires_at then (token, r) ∷ rest else rest

-- `ORDER BY created_at DESC`
unfoldable pub insert_newest : Text × Row → Table → Table
insert_newest p [] = p ∷ []
insert_newest p (q ∷ t) =
    if ltb p.1.created_at q.1.created_at then q ∷ insert_newest p t else p ∷ q ∷ t

unfoldable pub newest_first : Table → Table
unfolding insert_newest
newest_first [] = []
newest_first (p ∷ t) = insert_newest p (newest_first t)

module _ (loads_bytes : Bytes → Option Value) (loads_text : Text → Option Value)
    (as_uuid : Text → Option Text) (jsonb : Text → Column) where
  unfoldable pub session_of : Text → Row → Result Error Session
  unfolding parse_payload
  session_of token r = do
    payload ← parse_payload loads_bytes loads_text r.payload
    ok (record {
      token = token;
      tenant_id = r.tenant_id;
      payload = payload;
      expires_at = r.expires_at;
      created_at = r.created_at;
    })

  unfoldable pub get : (now : ℕ) → Text → Option Text → Table → Result Error Session
  unfolding live_row other_tenant session_of
  get now token tenant_id t = elim (live_row now token t) [
    | none ↦ raise not_found
    | some r ↦ if other_tenant tenant_id r then raise not_found else session_of token r
  ]

  -- `INSERT … ON CONFLICT (token) DO UPDATE`: an old row keeps its tenant and its age. A new one
  -- has the table's default for `created_at`, the time.
  unfoldable pub upsert : (now : ℕ) → Text → Session → Table → Table
  upsert now tenant_id s t =
      let written = jsonb (dumps plain s.payload) in
      elim (lookup s.token t) [
        | none ↦
            insert s.token
              (record {
                tenant_id = tenant_id;
                payload = written;
                created_at = now;
                expires_at = s.expires_at;
              })
              t
        | some r ↦ insert s.token (record r { payload = written; expires_at = s.expires_at }) t
      ]

  unfoldable pub put : (now : ℕ) → Session → Table → Result Error Table
  unfolding upsert
  put now s t = do
    tenant_id ← or_raise data_error (as_uuid s.tenant_id)
    ok (upsert now tenant_id s t)

  -- `DELETE FROM sessions WHERE token = $1 AND tenant_id = $2::uuid`
  unfoldable pub delete_of : Text → Text → Table → Table
  delete_of tenant_id token t = elim (lookup token t) [
    | none ↦ t
    | some r ↦ if r.tenant_id == tenant_id then erase token t else t
  ]

  unfoldable pub delete : Text → Option Text → Table → Result Error Table
  unfolding delete_of
  delete token none t = ok (erase token t)
  delete token (some tenant_id) t = do
    id ← or_raise data_error (as_uuid tenant_id)
    ok (delete_of id token t)

  unfoldable pub sessions_of : Table → Result Error (List Session)
  unfolding session_of
  sessions_of [] = ok []
  sessions_of ((token, r) ∷ t) = do s ← session_of token r; rest ← sessions_of t; ok (s ∷ rest)

  unfoldable pub list : (now : ℕ) → Text → Table → Result Error (List Session)
  unfolding live_rows newest_first sessions_of
  list now tenant_id t = do
    id ← or_raise data_error (as_uuid tenant_id)
    sessions_of (newest_first (live_rows now id t))

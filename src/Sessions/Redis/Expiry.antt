-- ===== src/Sessions/Redis/Expiry.antt =====
-- omkit/sessions.py: what `RedisSessionStore.get` answers after `put` and `delete`, and when a
-- session expires.
use omkit_python.Prelude.{ℕ, ◌+◌, ◌*◌, ◌≤◌, ◌<◌, ◌≡◌, ◌⊎◌, Option, some, if◌then◌else◌, arith, ltb}
use omkit_python.Prelude.Text.{Text, text_eq, text_beq_iff, text_beq}
use omkit_python.Prelude.Dict.{lookup-insert, lookup-erase}
use omkit_python.Prelude.Exceptions.{ok, raise}
use omkit_python.Json.{Value, str, obj, dumps, plain, get_field}
use omkit_python.Sessions.{Session, not_found}
use omkit_python.Sessions.Redis.{
  Database, Stored, Iso, second, ttl_of, session_object, key, put, redis_get, decode, get, delete,
  only_fields,
}

-- A session that expires in at least a second ends at most a second early and never late; the
-- others, expired ones included, last for a second.
pub ttl_of_bounds :
    (now expires_at : ℕ)
    → (now + second ≤ expires_at)
        × (now + ttl_of now expires_at * second ≤ expires_at)
        × (expires_at < now + ttl_of now expires_at * second + second)
      ⊎ (expires_at < now + second) × (ttl_of now expires_at ≡ 1)
unfolding ttl_of
ttl_of_bounds now expires_at = ground arith

module _ (loads : Text → Option Value) (iso : Iso) (prefix : Text) where
  abbrev stored : ℕ → Session → Stored
  stored now s = record {
    body = dumps plain (obj (session_object loads iso prefix s));
    deadline = now + ttl_of now s.expires_at * second;
  }

  decode-session_object :
      (s : Session)
      → iso.fromisoformat (str (iso.isoformat s.expires_at)) ≡ some s.expires_at
      → iso.fromisoformat (str (iso.isoformat s.created_at)) ≡ some s.created_at
      → decode loads iso prefix (obj (session_object loads iso prefix s))
        ≡ ok (record {
          token = str s.token;
          tenant_id = str s.tenant_id;
          payload = s.payload;
          expires_at = s.expires_at;
          created_at = s.created_at;
        })
  unfolding decode session_object get_field only_fields text_beq
  decode-session_object s e c = rw (e, c)

  -- Let `json.loads` read back what `json.dumps` wrote for the session, and `fromisoformat` the two
  -- times. After `put`, `get` returns the session to every caller, whatever tenant it names, until
  -- the time to live has passed, and raises NotFound afterwards.
  pub get-put_redis :
      (now later : ℕ) (s : Session) (q : Option Text) (d : Database)
      → loads (dumps plain (obj (session_object loads iso prefix s)))
        ≡ some (obj (session_object loads iso prefix s))
      → iso.fromisoformat (str (iso.isoformat s.expires_at)) ≡ some s.expires_at
      → iso.fromisoformat (str (iso.isoformat s.created_at)) ≡ some s.created_at
      → get loads iso prefix later s.token q (put loads iso prefix now s d) ≡ (
          if ltb later (now + ttl_of now s.expires_at * second)
          then ok (record {
            token = str s.token;
            tenant_id = str s.tenant_id;
            payload = s.payload;
            expires_at = s.expires_at;
            created_at = s.created_at;
          })
          else raise not_found)
  unfolding get put redis_get
  get-put_redis now later s q d l e c = ground (
    arith,
    lookup-insert (key loads iso prefix s.token) (key loads iso prefix s.token) (stored now s) d,
    text_beq_iff (key loads iso prefix s.token) (key loads iso prefix s.token),
    decode-session_object s e c,
    l,
  )

  -- `delete` takes the session of the token away, whatever tenant the caller names, and whatever
  -- tenant it belongs to.
  pub get-delete_redis :
      (now : ℕ) (token : Text) (q p : Option Text) (d : Database)
      → get loads iso prefix now token p (delete loads iso prefix token q d) ≡ raise not_found
  unfolding get delete redis_get
  get-delete_redis now token q p d = ground (
    arith,
    lookup-erase (key loads iso prefix token) (key loads iso prefix token) d,
    text_beq_iff (key loads iso prefix token) (key loads iso prefix token),
  )

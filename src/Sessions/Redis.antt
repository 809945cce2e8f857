-- ===== src/Sessions/Redis.antt =====
-- omkit/sessions.py: `RedisSessionStore`. The database maps a key to a text and to the time at which
-- it expires. Parameters are `json.loads`, the two conversions of datetimes, and the keys that SCAN
-- comes by, which may be in any order and more than once.

pub mod Expiry
mod Tests
use omkit_python.Prelude.{
  ℕ, ◌+◌, ◌-◌, ◌*◌, ◌/◌, Bool, true, false, ◌&&◌, ◌||◌, Option, none, some, List, [], ◌∷◌, ◌++◌,
  if◌then◌else◌, ltb, ◌==◌, length, drop,
}
use omkit_python.Prelude.Text.{Text, codes, text_eq, starts_with}
use omkit_python.Prelude.Dict.{Dict, lookup, insert, erase}
use omkit_python.Prelude.Exceptions.{Result, ok, raise, ◌>>=◌}
use omkit_python.Json.{Value, str, obj, Fields, end, field, dumps, plain, get_field}
use omkit_python.Sessions.{Session, Error, not_found, decode_error, or_raise}

pub record Stored : Type 0 where
  pub body : Text
  pub deadline : ℕ

abbrev pub Database : Type 0
Database = Dict Text Stored

-- What `Session(**d)` builds from decoded JSON: the types of the fields are not tested.
pub record Decoded : Type 0 where
  pub token : Value
  pub tenant_id : Value
  pub payload : Value
  pub expires_at : ℕ
  pub created_at : ℕ

-- `isoformat` and `fromisoformat`, whose `none` is a raise.
pub record Iso : Type 0 where
  pub isoformat : ℕ → Text
  pub fromisoformat : Value → Option ℕ

abbrev pub second : ℕ
second = 1000000

-- The `ttl` of `put`, in seconds: `int` drops a fraction, and a negative difference counts as 1.
unfoldable pub ttl_of : (now expires_at : ℕ) → ℕ
ttl_of now expires_at = let ttl = (expires_at - now) / second in if ltb ttl 1 then 1 else ttl

-- `Session(**d)` takes no other key.
unfoldable pub only_fields : Fields → Bool
only_fields end = true
only_fields (field k v fs) =
    (k == codes "token"
      || k == codes "tenant_id"
      || k == codes "payload"
      || k == codes "expires_at"
      || k == codes "created_at")
    && only_fields fs

-- `s.removeprefix(p)`
unfoldable pub removeprefix : Text → Text → Text
removeprefix p s = if starts_with p s then drop (length p) s else s

-- `s.tenant_id == tenant_id`
unfoldable pub is_text : Text → Value → Bool
is_text t (str s) = s == t
is_text t _ = false

module _ (loads : Text → Option Value) (iso : Iso) (prefix : Text) where
  -- `_key`
  abbrev pub key : Text → Text
  key token = prefix ++ token

  -- The dict that `put` writes.
  unfoldable pub session_object : Session → Fields
  session_object s = field (codes "token") (str s.token) (
      field (codes "tenant_id") (str s.tenant_id) (
        field (codes "payload") s.payload (
          field (codes "expires_at") (str (iso.isoformat s.expires_at))
            (field (codes "created_at") (str (iso.isoformat s.created_at)) end))))

  unfoldable pub put : (now : ℕ) → Session → Database → Database
  unfolding ttl_of session_object
  put now s d =
      insert (key s.token)
        (record {
          body = dumps plain (obj (session_object s));
          deadline = now + ttl_of now s.expires_at * second;
        })
        d

  -- GET of a key that has not expired.
  unfoldable pub redis_get : (now : ℕ) → Text → Database → Option Text
  redis_get now k d = elim (lookup k d) [
    | none ↦ none
    | some e ↦ if ltb now e.deadline then some e.body else none
  ]

  present : Text → Fields → Result Error Value
  present k fs = or_raise decode_error (get_field k fs)

  datetime : Text → Fields → Result Error ℕ
  unfolding present
  datetime k fs = do v ← present k fs; or_raise decode_error (iso.fromisoformat v)

  unfoldable pub decode : Value → Result Error Decoded
  unfolding datetime present only_fields
  decode (obj fs) = do
    e ← datetime (codes "expires_at") fs
    c ← datetime (codes "created_at") fs
    t ← present (codes "token") fs
    i ← present (codes "tenant_id") fs
    p ← present (codes "payload") fs
    if only_fields fs
        then ok (record { token = t; tenant_id = i; payload = p; expires_at = e; created_at = c })
        else raise decode_error
  decode _ = raise decode_error

  -- `get`, which has a `tenant_id` and does not look at it.
  unfoldable pub get : (now : ℕ) → Text → Option Text → Database → Result Error Decoded
  unfolding redis_get decode
  get now token tenant_id d = do
    body ← or_raise not_found (redis_get now (key token) d)
    v ← or_raise decode_error (loads body)
    decode v

  unfoldable pub delete : Text → Option Text → Database → Database
  delete token tenant_id d = erase (key token) d

  -- `list`, over the keys of the scan: what is not found is passed over.
  unfoldable pub list : (now : ℕ) → Text → List Text → Database → Result Error (List Decoded)
  unfolding get removeprefix is_text
  list now tenant_id [] d = ok []
  list now tenant_id (k ∷ ks) d =
      let rest = list now tenant_id ks d in
      elim (get now (removeprefix prefix k) none d) [
        | raise not_found ↦ rest
        | raise x ↦ raise x
        | ok s ↦ if is_text tenant_id s.tenant_id then rest >>= (λ l. ok (s ∷ l)) else rest
      ]

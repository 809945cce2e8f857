-- ===== src/Tenant.antt =====
-- omkit/tenant.py: the context of a request, the ASGI middleware, the row level security of a
-- session, and the hash for logs. The two context variables are a record that is passed along.
-- Parameters are the validity test of `uuid.UUID`, `uuid4`, HMAC-SHA-256 and `bytes.fromhex`. An
-- application is a function of the context; it sends messages, returns or raises, and leaves a
-- context.
pub mod Middleware
pub mod Rls
mod Tests
use omkit_python.Prelude.{
  ℕ, ◌+◌, Bool, true, false, not, ◌&&◌, ◌||◌, Option, none, some, List, [], ◌∷◌, ◌++◌, map,
  if◌then◌else◌, ltb, leb, ◌==◌, elem, length, take,
}
use omkit_python.Prelude.Text.{Text, Bytes, codes, text_eq, utf8, is_empty}
use omkit_python.Prelude.Int.{pos}
use omkit_python.Prelude.Exceptions.{Result, ok, raise}
use omkit_python.Json.{str, int, obj, field, end, dumps, plain}

pub record Context : Type 0 where
  pub tenant_id : Option Text
  pub request_id : Option Text

-- The reasons of the module's RuntimeErrors.
pub data Error : Type 0 where
  no_tenant no_transaction no_key bad_key short_key : Error

unfoldable pub require : Context → Result Error Text
require c = elim c.tenant_id [ none ↦ raise no_tenant | some t ↦ ok t ]

-- `bind` and `async_bind`, around a block that ends in some way and leaves a context: each variable
-- is reset to the value that it had.
unfoldable pub bind :
    {A : Type 0} → Text → Option Text → (Context → A × Context) → Context → A × Context
bind tenant_id request_id block c =
    ((block (record { tenant_id = some tenant_id; request_id = request_id })).0, c)

abbrev pub Headers : Type 0
Headers = List (Bytes × Bytes)

pub data Message : Type 0 where
  response_start : (status : ℕ) → Headers → Message
  response_body : Bytes → Message

pub record Scope : Type 0 where
  pub type : Text
  pub path : Text
  pub headers : Headers

-- `bytes.lower`
abbrev lower : Bytes → Bytes
lower [] = []
lower (b ∷ s) = (if leb 65 b && leb b 90 then b + 32 else b) ∷ lower s

-- `_get_header`; in latin-1 a byte is its code point.
unfoldable pub get_header : Headers → Bytes → Option Text
get_header [] name = none
get_header ((k, v) ∷ hs) name =
    let rest = get_header hs name in if lower k == name then some v else rest

abbrev pub default_exclude : List Text
default_exclude =
    codes "/health" ∷ codes "/healthz" ∷ codes "/ready" ∷ codes "/readyz" ∷ codes "/metrics" ∷ []

abbrev pub excluded_paths : Option (List Text) → List Text
excluded_paths none = default_exclude
excluded_paths (some paths) = paths

abbrev pub unauthorized_body : Bytes
unauthorized_body = codes "{\"error\": \"X-Tenant-ID header required\"}"

unfoldable pub unauthorized : List Message
unauthorized =
    response_start 401 (
      (codes "content-type", codes "application/json")
      ∷ (codes "content-length", dumps plain (int (pos (length unauthorized_body))))
      ∷ [])
    ∷ response_body unauthorized_body
    ∷ []

-- `send_with_request_id`
unfoldable pub add_request_id : Text → Message → Message
add_request_id rid (response_start status hs) =
    response_start status (hs ++ ((codes "x-request-id", utf8 rid) ∷ []))
add_request_id rid (response_body b) = response_body b

-- How an application runs: what it sends, whether it returns, and the context that it leaves.
pub record Run : Type 0 where
  pub sent : List Message
  pub returned : Bool
  pub context : Context

-- A request as it is served: besides the run, the context in which the application was called.
pub record Served : Type 0 where
  pub called : Option Context
  pub run : Run

-- `_get_header(…) or str(uuid.uuid4())`
abbrev pub or_fresh : Text → Option Text → Text
or_fresh fresh none = fresh
or_fresh fresh (some s) = if is_empty s then fresh else s

-- `not raw_tid or not _validate_uuid(raw_tid)`, negated.
abbrev pub accepts : (Text → Bool) → Option Text → Bool
accepts is_uuid none = false
accepts is_uuid (some t) = not (is_empty t) && is_uuid t

module _ (is_uuid : Text → Bool) (uuid4 : Text) (excluded : Option (List Text))
    (app : Context → Run) where
  unfoldable pub pass_through : Context → Served
  pass_through c = record { called = some c; run = app c }

  -- The application in the context of the request, whose variables are reset even if it raises.
  unfoldable pub serve : Text → Text → Context → Served
  unfolding add_request_id
  serve tenant_id request_id c =
      let inner : Context = record { tenant_id = some tenant_id; request_id = some request_id } in
      record {
        called = some inner;
        run = record (app inner) {
          sent = map (add_request_id request_id) (app inner).sent;
          context = c;
        };
      }

  unfoldable pub reject : Context → Served
  unfolding unauthorized
  reject c = record {
    called = none;
    run = record { sent = unauthorized; returned = true; context = c };
  }

  with_tenant : Option Text → Option Text → Context → Served
  unfolding serve reject
  with_tenant none rid c = reject c
  with_tenant (some t) rid c =
      if accepts is_uuid (some t) then serve t (or_fresh uuid4 rid) c else reject c

  -- `TenantMiddleware.__call__`
  unfoldable pub middleware : Scope → Context → Served
  unfolding get_header pass_through with_tenant
  middleware scope c =
      if not (scope.type == codes "http") || elem scope.path (excluded_paths excluded)
      then pass_through c
      else with_tenant (get_header scope.headers (codes "x-tenant-id"))
          (get_header scope.headers (codes "x-request-id")) c

-- A database session: whether a transaction is open, and its `app.tenant_id`.
pub record Session : Type 0 where
  pub in_transaction : Bool
  pub app_tenant_id : Option Text

-- `set_rls` and `set_rls_conn`
unfoldable pub set_rls : Context → Session → Result Error Session
unfolding require
set_rls c s =
    if s.in_transaction
    then elim (require c) [ ok t ↦ ok (record s { app_tenant_id = some t }) | raise x ↦ raise x ]
    else raise no_transaction

module _ (hmac_hex : Bytes → Bytes → Text) (fromhex : Text → Option Bytes) where
  -- The key of `hashed_for_log`, from the argument or from LOG_HMAC_KEY.
  unfoldable pub log_key : Option Bytes → Option Text → Result Error Bytes
  log_key (some key) env = ok key
  log_key none none = raise no_key
  log_key none (some env) = if is_empty env then raise no_key else elim (fromhex env) [
    | none ↦ raise bad_key
    | some key ↦ if ltb (length key) 16 then raise short_key else ok key
  ]

  unfoldable pub hashed_for_log : Text → Option Bytes → Option Text → Result Error Text
  unfolding log_key
  hashed_for_log tenant_id key env = elim (log_key key env) [
    | raise x ↦ raise x
    | ok k ↦ ok (take 16 (hmac_hex k (utf8 tenant_id)))
  ]

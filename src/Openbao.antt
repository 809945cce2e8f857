-- ===== src/Openbao.antt =====
-- omkit/kms/openbao.py: the client of the Transit engine of OpenBao, and omkit/kms/base.py for its
-- exceptions. The HTTP client, the clock, `json.loads`, base64 and `int` of a text are parameters.
-- What is read of an exception is its status; its message is not modelled. Times are whole seconds.
pub mod Session
pub mod Transit
pub mod Recovery
pub mod RoundTrip
pub mod Requests
mod Tests
use omkit_python.Prelude.{
  ℕ, zero, suc, ◌+◌, ◌*◌, Bool, true, false, ◌&&◌, not, Option, none, some, List, [], ◌∷◌, ◌++◌,
  if◌then◌else◌, ltb, leb, eqb, take,
}
use omkit_python.Prelude.Text.{Text, Bytes, codes, utf8, is_empty}
use omkit_python.Prelude.Int.{ℤ, pos, negsuc}
use omkit_python.Prelude.Exceptions.{Result, ok, raise}
use omkit_python.Json.{
  Value, null, boolean, int, str, arr, obj, Fields, end, field, get_field, truthy, dumps, plain,
}

-- `KMSUnavailableError` and `KMSAuthError` with their status, and Python's own exceptions.
pub data Error : Type 0 where
  unavailable : (status : ℕ) → Error
  auth : (status : ℕ) → Error
  attribute_error type_error value_error unicode_error : Error

pub record Response : Type 0 where
  pub status : ℕ
  pub content : Bytes

pub record Request : Type 0 where
  pub verb : Text
  pub path : Text
  pub token : Option Text
  pub body : Option Fields

-- `httpx.AsyncClient.request`, where `none` is an HTTPError, and `time.monotonic`, which may move in
-- every request.
pub record Client (W : Type 0) : Type 0 where
  pub request : Request → W → Option Response × W
  pub monotonic : W → ℕ

-- `b64encode(…).decode("ascii")` and `b64decode`; `none` is a raise.
pub record Base64 : Type 0 where
  pub encode : Bytes → Text
  pub decode : Text → Option Bytes

-- What the constructor is given. The address, which `rstrip` shortens, is left to the client.
pub record Setup : Type 0 where
  pub role_id : Text
  pub secret_id : Text
  pub key_name : Text
  pub base64 : Base64
  pub loads : Bytes → Option Value
  pub int_of : Text → Option ℤ

-- `self._token`, `self._token_expiry`, and the world of the client.
pub record State (W : Type 0) : Type 0 where
  pub token : Option Value
  pub token_expiry : ℕ
  pub world : W

abbrev pub Call : Type 0 → Type 0 → Type 0
Call W A = State W → Result Error A × State W

abbrev pub resume :
    {W A B : Type 0} → (A → Call W B) → Result Error A × State W → Result Error B × State W
resume k (ok a, s) = k a s
resume k (raise x, s) = (raise x, s)

infixl 5 ◌>>=◌
abbrev pub ◌>>=◌ : {W A B : Type 0} → Call W A → (A → Call W B) → Call W B
(m >>= k) s = resume k (m s)

abbrev pub give : {W A : Type 0} → Result Error A → Call W A
give r s = (r, s)

abbrev pub token_refresh_window : ℕ
token_refresh_window = 30

abbrev pub max_resp_bytes : ℕ
max_resp_bytes = 64 * 1024

abbrev pub login_path : Text
login_path = codes "/v1/auth/approle/login"

-- The header X-Vault-Token, which is set if the token is truthy; httpx takes texts only.
unfoldable pub token_header : Option Value → Result Error (Option Text)
token_header none = ok none
token_header (some (str s)) = ok (if is_empty s then none else some s)
token_header (some v) = if truthy v then raise type_error else ok none

-- `v.get(k)`
unfoldable pub get : Text → Value → Result Error (Option Value)
get k (obj fs) = ok (get_field k fs)
get k v = raise attribute_error

-- `v or {}` and `v or default`, for what `get` returned.
abbrev pub or_default : Value → Option Value → Value
or_default d none = d
or_default d (some v) = if truthy v then v else d

-- `x.get(j) or {}` and then `.get(k)`.
unfoldable pub get_in : Text → Text → Value → Result Error (Option Value)
unfolding get
get_in j k v = elim (get j v) [ raise x ↦ raise x | ok w ↦ get k (or_default (obj end) w) ]

abbrev pub is_ascii : List ℕ → Bool
is_ascii [] = true
is_ascii (c ∷ s) = ltb c 128 && is_ascii s

-- `s.encode("ascii")` and `b.decode("ascii")`: a character and its byte are one number.
unfoldable pub ascii : List ℕ → Result Error (List ℕ)
ascii s = if is_ascii s then ok s else raise unicode_error

-- `f"v{n}"` if `isinstance(n, int)`, which a bool is too.
unfoldable pub version_text : Option Value → Option Text
version_text (some (int n)) = some (b'v' ∷ dumps plain (int n))
version_text (some (boolean b)) = some (if b then codes "vTrue" else codes "vFalse")
version_text _ = none

-- `_derived_context`
unfoldable pub context_inner : Base64 → Text → Text → Bytes → Text
context_inner b user_id purpose aad = user_id ++ (b':' ∷ (purpose ++ (b':' ∷ b.encode aad)))

unfoldable pub derived_context : Base64 → Text → Text → Bytes → Text
unfolding context_inner
derived_context b user_id purpose aad = b.encode (utf8 (context_inner b user_id purpose aad))

-- `int(v)` of a truthy value, or 0.
unfoldable pub int_value : (Text → Option ℤ) → Value → Result Error ℤ
int_value int_of null = ok (pos 0)
int_value int_of (boolean b) = ok (pos (if b then 1 else 0))
int_value int_of (int n) = ok n
int_value int_of (str s) =
    if is_empty s then ok (pos 0) else elim (int_of s) [ none ↦ raise value_error | some n ↦ ok n ]
int_value int_of v = if truthy v then raise type_error else ok (pos 0)

-- `except (AttributeError, TypeError)`
unfoldable pub expected : {A : Type 0} → Result Error A → Result Error A
expected (raise attribute_error) = raise (unavailable 0)
expected (raise type_error) = raise (unavailable 0)
expected r = r

-- A lease that is not positive counts as an hour.
abbrev pub lease_or_hour : ℤ → ℕ
lease_or_hour (pos (suc n)) = suc n
lease_or_hour _ = 3600

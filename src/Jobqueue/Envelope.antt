-- ===== src/Jobqueue/Envelope.antt =====
-- omkit/jobqueue/envelope.py: the tenant-scoped envelope of a task. Parameters are the validity test
-- of `uuid.UUID`, `json.loads`, and pydantic's coercions to the types of the model's fields.
pub mod Laws
pub mod Wire
mod WireTests
pub mod Errors
mod Tests
use omkit_python.Prelude.{
  ℕ, ◌≡◌, Bool, true, false, not, ◌&&◌, ◌||◌, Option, none, some, List, [], ◌∷◌, if◌then◌else◌,
  ◌==◌,
}
use omkit_python.Prelude.Text.{Text, Bytes, codes, text_eq, utf8, is_empty}
use omkit_python.Prelude.Int.{ℤ, pos, ltb_ℤ}
use omkit_python.Prelude.Exceptions.{Result, ok, raise, ◌>>=◌, ◌>>◌}
use omkit_python.Json.{
  Value, int, str, obj, Fields, end, field, dumps, compact, get_field, has_field,
}

abbrev pub envelope_version : ℤ
envelope_version = pos 1

-- `unicode_decode_error` is what `json.loads` raises for bytes that are no text.
pub data Error : Type 0 where
  invalid_envelope unicode_decode_error : Error

pub record Envelope : Type 0 where
  pub version : ℤ
  pub tenant_id : Text
  pub request_id : Text
  pub payload : Fields

-- What `unwrap` is handed: raw JSON, or a value that was parsed before.
pub data Data : Type 0 where
  raw : Bytes → Data
  parsed : Value → Data

-- How `json.loads` ends.
pub data Loaded : Type 0 where
  loaded : Value → Loaded
  json_error decode_error : Loaded

-- Pydantic's conversion of a value to a field's type; a value of the type itself is taken as it is.
pub record Coercions : Type 0 where
  pub as_int : Value → Option ℤ
  pub as_str : Value → Option Text
  pub as_dict : Value → Option Fields
  pub as_int-int : (n : ℤ) → as_int (int n) ≡ some n
  pub as_str-str : (s : Text) → as_str (str s) ≡ some s
  pub as_dict-obj : (fs : Fields) → as_dict (obj fs) ≡ some fs

abbrev required : {A : Type 0} → (Value → Option A) → Option Value → Result Error A
required as_type none = raise invalid_envelope
required as_type (some v) = elim (as_type v) [ none ↦ raise invalid_envelope | some a ↦ ok a ]

-- A field with a default, which is not converted.
abbrev optional : {A : Type 0} → A → (Value → Option A) → Option Value → Result Error A
optional default as_type none = ok default
optional default as_type (some v) = required as_type (some v)

abbrev ensure : Bool → Result Error (Unit {0})
ensure true = ok tt
ensure false = raise invalid_envelope

-- `"extra": "forbid"`.
pub only_known : Fields → Bool
only_known end = true
only_known (field k v fs) =
    (k == codes "version"
      || k == codes "tenant_id"
      || k == codes "request_id"
      || k == codes "payload")
    && only_known fs

-- `_validate_version`
abbrev pub validate_version : ℤ → Bool
validate_version v = not (ltb_ℤ v (pos 1)) && not (ltb_ℤ envelope_version v)

module _ (is_uuid : Text → Bool) (c : Coercions) where
  -- `Envelope.model_validate`, with the three field validators.
  unfoldable pub model_validate : Fields → Result Error Envelope
  unfolding only_known get_field
  model_validate fs = do
    ensure (only_known fs)
    v ← required c.as_int (get_field (codes "version") fs)
    ensure (validate_version v)
    t ← required c.as_str (get_field (codes "tenant_id") fs)
    ensure (is_uuid t)
    r ← optional [] c.as_str (get_field (codes "request_id") fs)
    p ← required c.as_dict (get_field (codes "payload") fs)
    ensure (has_field p)
    ok (record { version = v; tenant_id = t; request_id = r; payload = p })

  -- The object that `wrap` writes: `request_id` is left out if it is empty.
  unfoldable pub envelope_object : Text → Fields → Text → Fields
  envelope_object tenant_id payload request_id = field (codes "version") (int envelope_version) (
      field (codes "tenant_id") (str tenant_id) (
        if is_empty request_id
        then field (codes "payload") (obj payload) end
        else field (codes "request_id") (str request_id)
            (field (codes "payload") (obj payload) end)))

  -- `Envelope(version=…, tenant_id=…, request_id=…, payload=…)`
  unfoldable pub construct : Text → Fields → Text → Result Error Envelope
  unfolding model_validate
  construct tenant_id payload request_id = model_validate (
      field (codes "version") (int envelope_version) (
        field (codes "tenant_id") (str tenant_id) (
          field (codes "request_id") (str request_id) (field (codes "payload") (obj payload) end))))

  unfoldable pub wrap : Text → Fields → Text → Result Error Bytes
  unfolding construct envelope_object
  wrap tenant_id payload request_id = do
    construct tenant_id payload request_id
    ok (utf8 (dumps compact (obj (envelope_object tenant_id payload request_id))))

  module _ (loads : Bytes → Loaded) where
    load : Data → Result Error Value
    load (raw bytes) = elim (loads bytes) [
      | loaded v ↦ ok v
      | json_error ↦ raise invalid_envelope
      | decode_error ↦ raise unicode_decode_error
    ]
    load (parsed v) = ok v

    from_value : Value → Result Error Envelope
    unfolding model_validate
    from_value (obj fs) = model_validate fs
    from_value _ = raise invalid_envelope

    unfoldable pub unwrap : Data → Result Error Envelope
    unfolding load from_value
    unwrap d = load d >>= from_value

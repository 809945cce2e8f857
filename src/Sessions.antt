-- ===== src/Sessions.antt =====
-- omkit/sessions.py: what the two stores, in the child modules, have in common. Times are numbers
-- of microseconds; a clock reading is an argument.
pub mod Postgres
pub mod Redis
use omkit_python.Prelude.{ℕ, Option, none, some, true, false}
use omkit_python.Prelude.Text.{Text, Bytes}
use omkit_python.Prelude.Exceptions.{Result, ok, raise}
use omkit_python.Json.{Value, obj, end, Column, raw, text, value, truthy}

pub record Session : Type 0 where
  pub token : Text
  pub tenant_id : Text
  pub payload : Value
  pub expires_at : ℕ
  pub created_at : ℕ

-- `data_error` is what the database raises for a text that is no UUID; `decode_error` stands for
-- the exceptions of decoding a stored session.
pub data Error : Type 0 where
  not_found data_error decode_error : Error

abbrev pub or_raise : {A : Type 0} → Error → Option A → Result Error A
or_raise x none = raise x
or_raise x (some a) = ok a

module _ (loads_bytes : Bytes → Option Value) (loads_text : Text → Option Value) where
  -- `_parse_payload`
  unfoldable pub parse_payload : Column → Result Error Value
  parse_payload (raw b) = or_raise decode_error (loads_bytes b)
  parse_payload (text s) = or_raise decode_error (loads_text s)
  parse_payload (value v) = ok (elim (truthy v) [ true ↦ v | false ↦ obj end ])

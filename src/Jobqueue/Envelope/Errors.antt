-- ===== src/Jobqueue/Envelope/Errors.antt =====
-- omkit/jobqueue/envelope.py: the exceptions of `unwrap`.
use omkit_python.Prelude.{◌≡◌, ◌↔◌, refl, Bool, true, false, Option, none, some, arith, []}
use omkit_python.Prelude.Text.{Text, Bytes, codes, text_eq}
use omkit_python.Prelude.Exceptions.{Result, ok, raise, ◌>>=◌}
use omkit_python.Json.{Value, null, boolean, int, str, arr, obj, Fields, get_field, has_field}
use omkit_python.Jobqueue.Envelope.{
  Error, invalid_envelope, unicode_decode_error, Data, raw, parsed, Loaded, loaded, json_error,
  decode_error, Coercions, required, optional, ensure, only_known, validate_version, model_validate,
  load, from_value, unwrap,
}

-- Whether a call returned or raised InvalidEnvelopeError.
abbrev pub caught : {A : Type 0} → Result Error A → Bool
caught (ok a) = true
caught (raise invalid_envelope) = true
caught (raise unicode_decode_error) = false

bind-caught :
    {A B : Type 0} (r : Result Error A) (k : A → Result Error B)
    → caught r ≡ true
    → ((a : A) → caught (k a) ≡ true)
    → caught (r >>= k) ≡ true
bind-caught (ok a) k h f = f a
bind-caught (raise invalid_envelope) k h f = refl
bind-caught (raise unicode_decode_error) k h f = h

ensure-caught : (b : Bool) → caught (ensure b) ≡ true
ensure-caught true = refl
ensure-caught false = refl

required-caught :
    {A : Type 0} (as_type : Value → Option A) (v : Option Value)
    → caught (required as_type v) ≡ true
required-caught as_type none = refl
required-caught as_type (some v) = ground arith

optional-caught :
    {A : Type 0} (default : A) (as_type : Value → Option A) (v : Option Value)
    → caught (optional default as_type v) ≡ true
optional-caught default as_type none = refl
optional-caught default as_type (some v) = required-caught as_type (some v)

module _ (is_uuid : Text → Bool) (c : Coercions) where
  model_validate-caught : (fs : Fields) → caught (model_validate is_uuid c fs) ≡ true
  unfolding model_validate
  model_validate-caught fs =
      bind-caught (ensure (only_known fs)) _ (ensure-caught (only_known fs)) (λ x.
        bind-caught (required c.as_int (get_field (codes "version") fs)) _
          (required-caught c.as_int (get_field (codes "version") fs))
          (λ v.
            bind-caught (ensure (validate_version v)) _ (ensure-caught (validate_version v)) (λ x'.
              bind-caught (required c.as_str (get_field (codes "tenant_id") fs)) _
                (required-caught c.as_str (get_field (codes "tenant_id") fs))
                (λ t. bind-caught (ensure (is_uuid t)) _ (ensure-caught (is_uuid t)) (λ y.
                  bind-caught (optional [] c.as_str (get_field (codes "request_id") fs)) _
                    (optional-caught [] c.as_str (get_field (codes "request_id") fs))
                    (λ r.
                      bind-caught (required c.as_dict (get_field (codes "payload") fs)) _
                        (required-caught c.as_dict (get_field (codes "payload") fs))
                        (λ p.
                          bind-caught (ensure (has_field p)) _ (ensure-caught (has_field p))
                            (λ z. refl))))))))

  module _ (loads : Bytes → Loaded) where
    abbrev pub undecodable : Data → Bool
    undecodable (raw bytes) = elim (loads bytes) [
      | loaded v ↦ false
      | json_error ↦ false
      | decode_error ↦ true
    ]
    undecodable (parsed v) = false

    from_value-caught : (v : Value) → caught (from_value is_uuid c loads v) ≡ true
    unfolding from_value
    from_value-caught (obj fs) = model_validate-caught fs
    from_value-caught null = refl
    from_value-caught (boolean b) = refl
    from_value-caught (int n) = refl
    from_value-caught (str s) = refl
    from_value-caught (arr xs) = refl

    -- `unwrap` returns an envelope or raises InvalidEnvelopeError, except for raw bytes that
    -- `json.loads` cannot decode to text: then, and only then, it raises UnicodeDecodeError.
    pub unwrap-undecodable :
        (d : Data) → (caught (unwrap is_uuid c loads d) ≡ false) ↔ (undecodable d ≡ true)
    unfolding unwrap load
    unwrap-undecodable (raw bytes) = decided (loads bytes) refl
      where
        decided :
            (x : Loaded)
            → loads bytes ≡ x
            → (caught (unwrap is_uuid c loads (raw bytes)) ≡ false)
              ↔ (undecodable (raw bytes) ≡ true)
        decided (loaded v) e = ground (arith, e, from_value-caught v)
        decided json_error e = ground (arith, e)
        decided decode_error e = ground (arith, e)
    unwrap-undecodable (parsed v) = ground (arith, from_value-caught v)

-- ===== src/Jobqueue/Envelope/Laws.antt =====
-- omkit/jobqueue/envelope.py: what is accepted, and the round trip.
use omkit_python.Prelude.{◌&&◌, if◌then◌else◌, ◌≡◌, Bool, true, [], ◌∷◌, arith}
use omkit_python.Prelude.Text.{Text, Bytes, utf8, text_beq}
use omkit_python.Prelude.Int.{pos}
use omkit_python.Prelude.Exceptions.{ok, raise, >>=-eq-ok}
use omkit_python.Json.{Value, obj, Fields, dumps, compact, has_field}
use omkit_python.Jobqueue.Envelope.{
  invalid_envelope, Envelope, Data, raw, parsed, Loaded, loaded, Coercions, envelope_version,
  model_validate, construct, envelope_object, wrap, load, from_value, unwrap,
}

module _ (is_uuid : Text → Bool) (c : Coercions) where
  construct-eq :
      (t r : Text) (p : Fields)
      → construct is_uuid c t p r ≡ (
          if is_uuid t && has_field p
          then ok
              (record { version = envelope_version; tenant_id = t; request_id = r; payload = p })
          else raise invalid_envelope)
  unfolding construct text_beq
  construct-eq t r p =
      ground (arith, c.as_int-int envelope_version, c.as_str-str t, c.as_str-str r, c.as_dict-obj p)

  object_valid :
      (t r : Text) (p : Fields)
      → is_uuid t ≡ true
      → has_field p ≡ true
      → model_validate is_uuid c (envelope_object is_uuid c t p r)
        ≡ ok (record { version = envelope_version; tenant_id = t; request_id = r; payload = p })
  unfolding model_validate envelope_object text_beq
  object_valid t [] p h k =
      ground (arith, c.as_int-int envelope_version, c.as_str-str t, c.as_dict-obj p)
  object_valid t (x ∷ r) p h k =
      ground (
        arith,
        c.as_int-int envelope_version,
        c.as_str-str t,
        c.as_str-str (x ∷ r),
        c.as_dict-obj p,
      )

  -- `wrap` raises `InvalidEnvelopeError` exactly if the tenant is no UUID or the payload is empty.
  -- Otherwise it returns the UTF-8 bytes of the compact JSON of the envelope.
  pub wrap_cases :
      (t r : Text) (p : Fields)
      → wrap is_uuid c t p r ≡ (
          if is_uuid t && has_field p
          then ok (utf8 (dumps compact (obj (envelope_object is_uuid c t p r))))
          else raise invalid_envelope)
  unfolding wrap
  wrap_cases t r p = ground (arith, construct-eq t r p)

  module _ (loads : Bytes → Loaded) where
    pub unwrap_parsed :
        (bytes : Bytes) (v : Value)
        → loads bytes ≡ loaded v
        → unwrap is_uuid c loads (parsed v) ≡ unwrap is_uuid c loads (raw bytes)
    unfolding unwrap load
    unwrap_parsed bytes v h = ground (arith, h)

    -- Suppose that `json.loads` reads back the JSON that `json.dumps` wrote for the envelope's object.
    -- Then a worker unwraps what `wrap` returned to the tenant, the request and the payload that
    -- went in, with version 1.
    pub unwrap-wrap :
        (t r : Text) (p : Fields) (bytes : Bytes)
        → (let v = obj (envelope_object is_uuid c t p r) in
            loads (utf8 (dumps compact v)) ≡ loaded v)
        → wrap is_uuid c t p r ≡ ok bytes
        → unwrap is_uuid c loads (raw bytes)
          ≡ ok (record { version = pos 1; tenant_id = t; request_id = r; payload = p })
    unfolding unwrap
    unwrap-wrap t r p bytes law h = ground (arith, wrap_cases t r p, object_valid t r p, law)

    model_validate_sound :
        (fs : Fields) (env : Envelope)
        → model_validate is_uuid c fs ≡ ok env
        → (env.version ≡ pos 1) × (is_uuid env.tenant_id ≡ true) × (has_field env.payload ≡ true)
    unfolding model_validate
    model_validate_sound fs env h = ground arith

    from_value_sound :
        (v : Value) (env : Envelope)
        → from_value is_uuid c loads v ≡ ok env
        → (env.version ≡ pos 1) × (is_uuid env.tenant_id ≡ true) × (has_field env.payload ≡ true)
    unfolding from_value
    from_value_sound (obj fs) env h = model_validate_sound fs env h
    from_value_sound _ env h = cc

    -- Every envelope that `unwrap` returns has version 1, a tenant that is a UUID and a payload that
    -- is not empty, whatever it was handed.
    pub unwrap_sound :
        (d : Data) (env : Envelope)
        → unwrap is_uuid c loads d ≡ ok env
        → (env.version ≡ pos 1) × (is_uuid env.tenant_id ≡ true) × (has_field env.payload ≡ true)
    unfolding unwrap
    unwrap_sound d env h =
        let (v, _, e) = >>=-eq-ok (load is_uuid c loads d) (from_value is_uuid c loads) h in
        from_value_sound v env e

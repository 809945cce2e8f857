-- ===== src/Jobqueue/Envelope/Tests.antt =====
-- Witnesses and tests for the envelope.
use omkit_python.Prelude.{
  ◌↔◌, false, ◌≡◌, refl, Bool, true, none, some, [], ◌∷◌, eqb, if◌then◌else◌, ◌&&◌, ◌==◌, length,
}
use omkit_python.Prelude.Text.{Text, Bytes, codes, utf8, text_beq, text_eq}
use omkit_python.Prelude.Int.{pos}
use omkit_python.Prelude.Exceptions.{ok, raise}
use omkit_python.Json.{int, str, obj, Fields, end, field, dumps, compact, has_field}
use omkit_python.Jobqueue.Envelope.{
  invalid_envelope, unicode_decode_error, Envelope, raw, Loaded, loaded, decode_error, Coercions,
  envelope_object, wrap, unwrap,
}
use omkit_python.Jobqueue.Envelope.Laws.{wrap_cases, unwrap-wrap, unwrap_sound}
use omkit_python.Jobqueue.Envelope.Errors.{caught, undecodable, unwrap-undecodable}

abbrev tenant : Text
tenant = codes "00000000-0000-0000-0000-000000000001"

-- A test of the length, in place of `uuid.UUID`.
abbrev is_uuid : Text → Bool
is_uuid t = eqb (length t) 36

-- No conversion at all.
abbrev strict : Coercions
strict = record {
  as_int = elim [ int n ↦ some n | _ ↦ none ];
  as_str = elim [ str s ↦ some s | _ ↦ none ];
  as_dict = elim [ obj fs ↦ some fs | _ ↦ none ];
  as_int-int = λ n. refl;
  as_str-str = λ s. refl;
  as_dict-obj = λ fs. refl;
}

abbrev payload : Fields
payload = field (codes "doc_id") (int (pos 12)) end

abbrev wire : Bytes
wire =
    codes
      "{\"version\":1,\"tenant_id\":\"00000000-0000-0000-0000-000000000001\",\"payload\":{\"doc_id\":12}}"

-- The bytes of the envelope without a request.
wrap-wire : wrap is_uuid strict tenant payload [] ≡ ok wire
unfolding wrap dumps text_beq utf8
wrap-wire = refl

-- A `json.loads` that reads the one text above.
abbrev loads : Bytes → Loaded
loads bytes =
    if bytes == wire
    then loaded (obj (envelope_object is_uuid strict tenant payload []))
    else decode_error

wrap-tested : wrap is_uuid strict tenant payload [] ≡ (
    if is_uuid tenant && has_field payload
    then ok (utf8 (dumps compact (obj (envelope_object is_uuid strict tenant payload []))))
    else raise invalid_envelope)
wrap-tested = wrap_cases is_uuid strict tenant [] payload

unwrap-wrap-tested :
    unwrap is_uuid strict loads (raw wire)
    ≡ ok (record { version = pos 1; tenant_id = tenant; request_id = []; payload = payload })
unfolding wrap dumps text_beq utf8
unwrap-wrap-tested = unwrap-wrap is_uuid strict loads tenant [] payload wire refl refl

unwrap_sound-tested :
    let env : Envelope = record {
      version = pos 1;
      tenant_id = tenant;
      request_id = [];
      payload = payload;
    } in
    (env.version ≡ pos 1) × (is_uuid env.tenant_id ≡ true) × (has_field env.payload ≡ true)
unwrap_sound-tested =
    unwrap_sound is_uuid strict loads (raw wire)
      (record { version = pos 1; tenant_id = tenant; request_id = []; payload = payload })
      unwrap-wrap-tested

unwrap-undecodable-tested :
    (caught (unwrap is_uuid strict loads (raw (255 ∷ []))) ≡ false)
    ↔ (undecodable is_uuid strict loads (raw (255 ∷ [])) ≡ true)
unwrap-undecodable-tested = unwrap-undecodable is_uuid strict loads (raw (255 ∷ []))

unwrap-bytes : unwrap is_uuid strict loads (raw (255 ∷ [])) ≡ raise unicode_decode_error
unfolding text_beq unwrap
unwrap-bytes = refl

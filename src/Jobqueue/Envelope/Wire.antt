-- ===== src/Jobqueue/Envelope/Wire.antt =====
-- omkit/jobqueue/envelope.py and omkit/jobqueue/streaq.py with `json.loads` itself in the place of
-- the parameter: nothing is left to assume of it but that ASCII decodes to itself.
use Prim.Native.String.{String}
use omkit_python.Prelude.{◌≡◌, refl, Bool, true, Option, none, some, List, [], ◌∷◌, arith}
use omkit_python.Prelude.Text.{Text, Bytes, codes, text_eq, text_beq, utf8}
use omkit_python.Prelude.Int.{pos}
use omkit_python.Prelude.Exceptions.{ok}
use omkit_python.Json.{Value, obj, Fields, dumps, compact, get_field, has_field}
use omkit_python.Json.Reader
use omkit_python.Json.Scalars.{IsScalars}
use omkit_python.Json.Shapes.{IsReadable, HasReadable}
use omkit_python.Json.RoundTrip.{loads-dumps}
use omkit_python.Json.Ascii.{IsAscii, is_ascii, is_ascii-IsScalars, utf8-IsAscii, dumps-IsAscii}
use omkit_python.Tenant.{Context}
use omkit_python.Jobqueue.Envelope.{
  Data, raw, parsed, Loaded, loaded, json_error, decode_error, Coercions, envelope_object, wrap,
  unwrap,
}
use omkit_python.Jobqueue.Envelope.Laws.{unwrap-wrap}
use omkit_python.Jobqueue.Streaq.{Task, tenant_middleware, enqueue, json_serializer}
use omkit_python.Jobqueue.Streaq.Delivery.{in_tenant, enqueue-delivered}

plain_key : (k : String) → is_ascii (codes k) ≡ true → IsScalars (codes k)
plain_key k h = is_ascii-IsScalars (codes k) h

module _ (decode : Bytes → Option Text) where
  -- `json.loads` on bytes.
  abbrev pub json_loads : Bytes → Loaded
  json_loads b = elim (decode b) [
    | none ↦ decode_error
    | some s ↦ elim (Reader.loads s) [ none ↦ json_error | some v ↦ loaded v ]
  ]

  json_loads-read :
      (b : Bytes) (s : Text) (v : Value)
      → decode b ≡ some s
      → Reader.loads s ≡ some v
      → json_loads b ≡ loaded v
  json_loads-read b s v h k = ground (arith, h, k)

  module _ (ascii : (b : Bytes) → IsAscii b → decode b ≡ some b) where
    json_loads-dumps : (v : Value) → IsReadable v → json_loads (utf8 (dumps compact v)) ≡ loaded v
    json_loads-dumps v h =
        let t = dumps compact v in
        let plain_ascii : IsAscii t = dumps-IsAscii [] [] tt tt v in
        let read : Reader.loads t ≡ some v = loads-dumps [] [] tt tt v h in
        rw (utf8-IsAscii t plain_ascii) (json_loads-read t t v (ascii t plain_ascii) read)

    module _ (is_uuid : Text → Bool) (c : Coercions) where
      object-IsReadable :
          (t r : Text) (p : Fields)
          → IsScalars t
          → IsScalars r
          → HasReadable p
          → IsReadable (obj (envelope_object is_uuid c t p r))
      unfolding envelope_object IsReadable get_field text_beq
      object-IsReadable t [] p ht hr hp = (
        plain_key "version" refl,
        tt,
        refl,
        (plain_key "tenant_id" refl, ht, refl, (plain_key "payload" refl, hp, refl, tt)),
      )
      object-IsReadable t (x ∷ r) p ht hr hp = (
        plain_key "version" refl,
        tt,
        refl,
        (
          plain_key "tenant_id" refl,
          ht,
          refl,
          (plain_key "request_id" refl, hr, refl, (plain_key "payload" refl, hp, refl, tt)),
        ),
      )

      -- If ASCII decodes to itself and neither the tenant, the request nor the payload has a
      -- surrogate, nor an object of the payload the same key twice, then a worker unwraps what `wrap`
      -- returned to the tenant, the request and the payload that went in, with version 1.
      pub unwrap-wrap_json :
          (t r : Text) (p : Fields) (bytes : Bytes)
          → IsScalars t
          → IsScalars r
          → HasReadable p
          → wrap is_uuid c t p r ≡ ok bytes
          → unwrap is_uuid c json_loads (raw bytes)
            ≡ ok (record { version = pos 1; tenant_id = t; request_id = r; payload = p })
      unwrap-wrap_json t r p bytes ht hr hp h =
          unwrap-wrap is_uuid c json_loads t r p bytes
            (json_loads-dumps (obj (envelope_object is_uuid c t p r))
              (object-IsReadable t r p ht hr hp))
            h

      -- If ASCII decodes to itself, the tenant is a UUID without surrogates, and the payload is not
      -- empty and has no surrogate and no object with the same key twice, then `enqueue` hands over a
      -- value that survives the queue's own encoding, and with it the middleware calls the task
      -- once, with the payload, the further arguments and a context of this tenant, gives back the
      -- task's result, and leaves the context of the worker as it was.
      pub enqueue-delivered_json :
          {R : Type 0} (task : Task R) (t : Text) (p : Fields) (args : List Data) (ctx : Context)
          → is_uuid t ≡ true
          → has_field p ≡ true
          → IsScalars t
          → HasReadable p
          → (v : Value) × (enqueue is_uuid c json_loads t p ≡ ok v)
            × (json_loads (json_serializer v) ≡ loaded v)
            × (tenant_middleware is_uuid c json_loads task (parsed v ∷ args) ctx
                ≡ (ok (task p args (in_tenant is_uuid c json_loads t)).0, ctx))
      enqueue-delivered_json task t p args ctx h k ht hp =
          enqueue-delivered is_uuid c json_loads task t p args ctx h k (
            json_loads-dumps (obj (envelope_object is_uuid c t p []))
              (object-IsReadable t [] p ht tt hp))

-- ===== src/Jobqueue/Streaq/Delivery.antt =====
-- omkit/jobqueue/streaq.py: a task on its way from `enqueue` to its handler.
use omkit_python.Prelude.{◌≡◌, refl, Bool, true, none, some, List, [], ◌∷◌, arith, ◌∙◌}
use omkit_python.Prelude.Text.{Text, Bytes, utf8}
use omkit_python.Prelude.Exceptions.{ok}
use omkit_python.Json.{Value, obj, Fields, dumps, compact, has_field}
use omkit_python.Tenant.{Context, bind}
use omkit_python.Jobqueue.Envelope.{Data, parsed, Loaded, loaded, Coercions, wrap, envelope_object}
use omkit_python.Jobqueue.Envelope.Laws.{wrap_cases, unwrap_parsed, unwrap-wrap}
use omkit_python.Jobqueue.Streaq.{Task, tenant_middleware, enqueue, json_serializer}

module _ (is_uuid : Text → Bool) (c : Coercions) (loads : Bytes → Loaded) where
  abbrev pub in_tenant : Text → Context
  in_tenant t = record { tenant_id = some t; request_id = none }

  -- Suppose that `json.loads` reads back the JSON of the envelope, that the tenant is a UUID and that
  -- the payload is not empty. Then `enqueue` hands over a value that survives the queue's own
  -- encoding, and with it the middleware calls the task once, with the payload, the further
  -- arguments and a context of this tenant, gives back the task's result, and leaves the context of
  -- the worker as it was.
  pub enqueue-delivered :
      {R : Type 0} (task : Task R) (t : Text) (p : Fields) (args : List Data) (ctx : Context)
      → is_uuid t ≡ true
      → has_field p ≡ true
      → (let v = obj (envelope_object is_uuid c t p []) in
          loads (utf8 (dumps compact v)) ≡ loaded v)
      → (v : Value) × (enqueue is_uuid c loads t p ≡ ok v)
        × (loads (json_serializer v) ≡ loaded v)
        × (tenant_middleware is_uuid c loads task (parsed v ∷ args) ctx
            ≡ (ok (task p args (in_tenant t)).0, ctx))
  unfolding enqueue tenant_middleware json_serializer bind
  enqueue-delivered task t p args ctx h k law =
      let v = obj (envelope_object is_uuid c t p []) in
      let bytes = utf8 (dumps compact v) in
      let wrapped : wrap is_uuid c t p [] ≡ ok bytes =
        ground (arith, wrap_cases is_uuid c t [] p, h, k) in
      let same = unwrap_parsed is_uuid c loads bytes v law in
      (
        v,
        ground (arith, wrapped, law),
        law,
        rw (same ∙ unwrap-wrap is_uuid c loads t [] p bytes law wrapped, tenant_middleware) refl,
      )

-- ===== src/Jobqueue/Streaq/Tests.antt =====
-- Witnesses and tests for the queue.
use omkit_python.Prelude.{◌≡◌, refl, true, none, some, [], ◌∷◌, if◌then◌else◌, ◌==◌, Option, map}
use omkit_python.Prelude.Text.{Text, Bytes, codes, text_eq, text_beq, utf8}
use omkit_python.Prelude.Dict.{lookup}
use omkit_python.Prelude.Exceptions.{ok, raise}
use omkit_python.Prelude.Int.{pos}
use omkit_python.Json.{Value, int, str, obj, Fields, end, field, dumps}
use omkit_python.Tenant.{Context}
use omkit_python.Jobqueue.Envelope.{
  Coercions, parsed, Loaded, loaded, json_error, invalid_envelope, envelope_object,
}
use omkit_python.Jobqueue.Streaq.{
  Task, tenant_middleware, enqueue, json_serializer, collect, counter_keys, Sample, make_worker,
  default_options,
}
use omkit_python.Jobqueue.Streaq.Delivery.{enqueue-delivered}

abbrev strict : Coercions
strict = record {
  as_int = elim [ int n ↦ some n | _ ↦ none ];
  as_str = elim [ str s ↦ some s | _ ↦ none ];
  as_dict = elim [ obj fs ↦ some fs | _ ↦ none ];
  as_int-int = λ n. refl;
  as_str-str = λ s. refl;
  as_dict-obj = λ fs. refl;
}

abbrev payload : Fields
payload = field (codes "doc_id") (int (pos 12)) end

abbrev loads : Bytes → Loaded
loads bytes =
    if bytes == codes "{\"version\":1,\"tenant_id\":\"t\",\"payload\":{\"doc_id\":12}}"
    then loaded (obj (envelope_object (λ t. true) strict (codes "t") payload []))
    else json_error

-- A task that gives back the tenant that it sees.
abbrev task : Task (Option Text)
task p args ctx = (ctx.tenant_id, ctx)

abbrev outside : Context
outside = record { tenant_id = none; request_id = some (codes "r") }

enqueue-delivered-tested :
    (v : Value) × (enqueue (λ t. true) strict loads (codes "t") payload ≡ ok v)
    × (loads (json_serializer v) ≡ loaded v)
    × (tenant_middleware (λ t. true) strict loads task (parsed v ∷ []) outside
        ≡ (ok (some (codes "t")), outside))
unfolding dumps text_beq utf8 envelope_object
enqueue-delivered-tested =
    enqueue-delivered (λ t. true) strict loads task (codes "t") payload [] outside refl refl refl

tenant_middleware-no_args :
    tenant_middleware (λ t. true) strict loads task [] outside ≡ (raise invalid_envelope, outside)
unfolding tenant_middleware
tenant_middleware-no_args = refl

-- A counter that the worker does not have counts as 0.
collect-partial :
    map (λ (s : Sample). s.value) (collect none (some ((codes "failed", 2) ∷ [])) counter_keys)
    ≡ 0 ∷ 0 ∷ 2 ∷ 0 ∷ 0 ∷ 0 ∷ []
unfolding collect lookup text_beq
collect-partial = refl

-- The default of `max_tries` is not passed on, nor is any other.
make_worker-max_tries :
    make_worker (codes "u") (codes "q") default_options
    ≡ make_worker (codes "u") (codes "q") (record default_options { max_tries = 1 })
unfolding make_worker
make_worker-max_tries = refl

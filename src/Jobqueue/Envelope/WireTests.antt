-- ===== src/Jobqueue/Envelope/WireTests.antt =====
-- Witnesses for envelopes with `json.loads` itself.
use omkit_python.Prelude.{◌≡◌, refl, true, none, some, [], ◌∷◌, Option}
use omkit_python.Prelude.Text.{Text, Bytes, codes, text_eq, text_beq, utf8}
use omkit_python.Prelude.Exceptions.{ok}
use omkit_python.Prelude.Int.{pos}
use omkit_python.Json.{
  Value, int, str, arr, obj, null, nil, cons, Fields, end, field, dumps, get_field,
}
use omkit_python.Json.Reader.{loads}
use omkit_python.Json.Shapes.{HasReadable}
use omkit_python.Json.Ascii.{is_ascii-IsScalars}
use omkit_python.Tenant.{Context}
use omkit_python.Jobqueue.Envelope.{Coercions, raw, parsed, loaded, wrap, unwrap}
use omkit_python.Jobqueue.Envelope.Wire.{json_loads, unwrap-wrap_json, enqueue-delivered_json}
use omkit_python.Jobqueue.Streaq.{Task, tenant_middleware, enqueue, json_serializer}

abbrev strict : Coercions
strict = record {
  as_int = elim [ int n ↦ some n | _ ↦ none ];
  as_str = elim [ str s ↦ some s | _ ↦ none ];
  as_dict = elim [ obj fs ↦ some fs | _ ↦ none ];
  as_int-int = λ n. refl;
  as_str-str = λ s. refl;
  as_dict-obj = λ fs. refl;
}

abbrev payload : Fields
payload = field (codes "doc_id") (int (pos 12)) (field (codes "tags") (arr (cons null nil)) end)

-- A decoding that reads ASCII.
abbrev decode : Bytes → Option Text
decode b = some b

abbrev wire : Bytes
wire =
    codes
      "{\"version\":1,\"tenant_id\":\"t\",\"request_id\":\"r\",\"payload\":{\"doc_id\":12,\"tags\":[null]}}"

wrap-wire : wrap (λ t. true) strict (codes "t") payload (codes "r") ≡ ok wire
unfolding wrap dumps text_beq utf8
wrap-wire = refl

payload-HasReadable : HasReadable payload
unfolding HasReadable get_field text_beq
payload-HasReadable = (
  is_ascii-IsScalars (codes "doc_id") refl,
  tt,
  refl,
  (is_ascii-IsScalars (codes "tags") refl, (tt, tt), refl, tt),
)

unwrap-wrap_json_example :
    unwrap (λ t. true) strict (json_loads decode) (raw wire)
    ≡ ok (record {
      version = pos 1;
      tenant_id = codes "t";
      request_id = codes "r";
      payload = payload;
    })
unwrap-wrap_json_example =
    unwrap-wrap_json decode (λ b h. refl) (λ t. true) strict (codes "t") (codes "r") payload wire
      (is_ascii-IsScalars (codes "t") refl) (is_ascii-IsScalars (codes "r") refl)
      payload-HasReadable wrap-wire

-- A task that gives back the tenant that it sees.
abbrev task : Task (Option Text)
task p args ctx = (ctx.tenant_id, ctx)

abbrev outside : Context
outside = record { tenant_id = none; request_id = some (codes "r") }

enqueue-delivered_json_example :
    (v : Value) × (enqueue (λ t. true) strict (json_loads decode) (codes "t") payload ≡ ok v)
    × (json_loads decode (json_serializer v) ≡ loaded v)
    × (tenant_middleware (λ t. true) strict (json_loads decode) task (parsed v ∷ []) outside
        ≡ (ok (some (codes "t")), outside))
enqueue-delivered_json_example =
    enqueue-delivered_json decode (λ b h. refl) (λ t. true) strict task (codes "t") payload []
      outside refl refl (is_ascii-IsScalars (codes "t") refl) payload-HasReadable

-- White space, escapes, a repeated key, numbers; a float, a comma too many, and a raw line feed.
reads :
    (loads (codes " {\"a\" : [ -1 , 0 , true ] , \"a\" : \"\\u00e9\\ud83d\\ude00\\/\" } ")
      ≡ some (obj (field (codes "a") (str (233 ∷ 128512 ∷ 47 ∷ [])) end)))
    × (loads (codes "1.5") ≡ none)
    × (loads (codes "[1,]") ≡ none)
    × (loads (34 ∷ 10 ∷ 34 ∷ []) ≡ none)
    × (loads (codes "[01]") ≡ none)
unfolding loads text_beq
reads = (refl, refl, refl, refl, refl)

-- ===== src/Tenant/Tests.antt =====
-- Witnesses and tests for the tenant context.
use omkit_python.Prelude.{◌≡◌, refl, Bool, true, false, none, some, List, [], ◌∷◌, ◌==◌}
use omkit_python.Prelude.Text.{Text, codes, text_eq, text_beq, utf8}
use omkit_python.Prelude.Exceptions.{ok}
use omkit_python.Json.{str, obj, field, end, dumps, plain}
use omkit_python.Tenant.{
  Context, require, bind, response_start, response_body, Scope, Run, unauthorized,
  unauthorized_body, accepts, middleware, get_header, add_request_id, set_rls, pass_through,
}
use omkit_python.Tenant.Middleware.{tenant_header, tenant_of, middleware_guarded}
use omkit_python.Tenant.Rls.{Action, begins, ends, sets, run, fresh, run-tenant}

abbrev outside : Context
outside = record { tenant_id = some (codes "before"); request_id = none }

-- An application that changes the context and raises.
abbrev app : Context → Run
app c = record {
  sent = response_start 200 [] ∷ response_body (codes "x") ∷ [];
  returned = false;
  context = record { tenant_id = some (codes "other"); request_id = none };
}

abbrev is_uuid : Text → Bool
is_uuid t = t == codes "u"

abbrev request : Scope
request = record {
  type = codes "http";
  path = codes "/v1";
  headers = (codes "X-Tenant-ID", codes "u") ∷ (codes "x-tenant-id", codes "v") ∷ [];
}

runs : Unit {0}
unfolding text_beq dumps utf8 require bind middleware get_header set_rls add_request_id pass_through
runs = tt

body-dumps :
    dumps plain (obj (field (codes "error") (str (codes "X-Tenant-ID header required")) end))
    ≡ unauthorized_body
unfolding runs
body-dumps = refl

-- The answer carries the id of the request.
answer :
    (middleware is_uuid (codes "r") none app request outside).run.sent
    ≡ response_start 200 ((codes "x-request-id", codes "r") ∷ []) ∷ response_body (codes "x") ∷ []
unfolding runs
answer = refl

health :
    (middleware is_uuid
      (codes "r")
      none
      app
      (record request { path = codes "/health" })
      outside).called
    ≡ some outside
unfolding runs
health = refl

bound : bind (codes "t") none (λ c. (require c, outside)) outside ≡ (ok (codes "t"), outside)
unfolding runs
bound = refl

middleware_guarded_example :
    let served = middleware is_uuid (codes "r") none app request outside in
    (served.run.context ≡ outside)
    × (accepts is_uuid (tenant_header is_uuid (codes "r") none app request) ≡ true
        → tenant_of is_uuid (codes "r") none app served.called
          ≡ tenant_header is_uuid (codes "r") none app request)
    × (accepts is_uuid (tenant_header is_uuid (codes "r") none app request) ≡ false
        → (served.called ≡ none) × (served.run.sent ≡ unauthorized))
unfolding text_beq
middleware_guarded_example =
    middleware_guarded is_uuid (codes "r") none app request outside refl refl

abbrev history : List Action
history = sets outside ∷ begins ∷ sets outside ∷ ends ∷ begins ∷ []

-- The second transaction does not see the tenant of the first.
run-tenant_example :
    ((run history fresh).app_tenant_id ≡ none)
    × ((run history fresh).in_transaction ≡ false → (run history fresh).app_tenant_id ≡ none)
run-tenant_example = run-tenant history

-- ===== src/Tenant/Middleware.antt =====
-- omkit/tenant.py: which tenant an application sees behind the middleware.
use omkit_python.Prelude.{
  ◌≡◌, Bool, true, false, not, ◌||◌, Option, none, some, List, arith, elem, ◌==◌, ==-refl,
}
use omkit_python.Prelude.Text.{Text, codes, text_eq}
use omkit_python.Tenant.{
  Context, Scope, Run, Served, get_header, excluded_paths, unauthorized, accepts, serve, reject,
  with_tenant, middleware,
}

module _ (is_uuid : Text → Bool) (uuid4 : Text) (excluded : Option (List Text))
    (app : Context → Run) where
  abbrev pub tenant_header : Scope → Option Text
  tenant_header scope = get_header scope.headers (codes "x-tenant-id")

  abbrev pub tenant_of : Option Context → Option Text
  tenant_of none = none
  tenant_of (some c) = c.tenant_id

  -- What a guarded request comes to, by its two headers.
  abbrev Guarded : Option Text → Context → Served → Type 0
  Guarded header c served =
      (served.run.context ≡ c)
      × (accepts is_uuid header ≡ true → tenant_of served.called ≡ header)
      × (accepts is_uuid header ≡ false → (served.called ≡ none) × (served.run.sent ≡ unauthorized))

  with_tenant-Guarded :
      (header rid : Option Text) (c : Context)
      → Guarded header c (with_tenant is_uuid uuid4 excluded app header rid c)
  unfolding with_tenant serve reject
  with_tenant-Guarded none rid c = ground arith
  with_tenant-Guarded (some t) rid c = ground arith

  -- An HTTP request to a path that is not excluded reaches the application exactly if its first
  -- X-Tenant-ID header is a UUID, and the application then sees this tenant; otherwise the
  -- application is not called and the answer is 401. Whatever the application does to the context,
  -- and whether it returns or raises, the context afterwards is the one before.
  pub middleware_guarded :
      (scope : Scope) (c : Context)
      → scope.type ≡ codes "http"
      → elem scope.path (excluded_paths excluded) ≡ false
      → let served = middleware is_uuid uuid4 excluded app scope c in
        (served.run.context ≡ c)
        × (accepts is_uuid (tenant_header scope) ≡ true
            → tenant_of served.called ≡ tenant_header scope)
        × (accepts is_uuid (tenant_header scope) ≡ false
            → (served.called ≡ none) × (served.run.sent ≡ unauthorized))
  unfolding middleware
  middleware_guarded scope c h p =
      let guarded : (not (scope.type == codes "http") || elem scope.path (excluded_paths excluded))
          ≡ false =
        rw (h, p, ==-refl (codes "http")) in
      rw (guarded, middleware)
        (with_tenant-Guarded (tenant_header scope) (get_header scope.headers (codes "x-request-id"))
          c)

-- ===== src/Service/Tests.antt =====
-- Witnesses and tests for costs, probes and pools.
use omkit_python.Prelude.{◌≡◌, refl, true, false, none, some, List, [], ◌∷◌, arith}
use omkit_python.Prelude.Text.{Text, codes, text_beq}
use omkit_python.Prelude.Int.{pos, negsuc}
use omkit_python.Sanitize.{after, span}
use omkit_python.Service.{
  Labels, checked, check_raised, serve, normalize_dsn, create_pool, caller_init, set_role,
}
use omkit_python.Service.Probes.{routed, serve_status}
use omkit_python.Service.Costs.{Call, total, record_all, record_all-total}
use omkit_python.Service.Pools.{normalize_dsn-normalize_dsn}

serve_status-tested :
    routed (
      serve
        (codes "spine")
        (codes "1")
        (checked ((codes "db", codes "down") ∷ []))
        (codes "/readyz"))
    ≡ some 503
unfolding text_beq
serve_status-tested =
    serve_status (codes "spine") (codes "1") (codes "/readyz")
      (checked ((codes "db", codes "down") ∷ []))

serve-raised : routed (serve (codes "spine") (codes "1") check_raised (codes "/healthz")) ≡ some 200
unfolding serve text_beq
serve-raised = refl

abbrev labels : Text → Labels
labels b = record {
  service = codes "s";
  provider = codes "p";
  op = codes "embed";
  tenant_bucket = b;
}

abbrev calls : List Call
calls =
    (true, labels (codes "paid"), pos 3)
    ∷ (true, labels (codes "payed"), pos 4)
    ∷ (true, labels (codes "paid"), negsuc 8)
    ∷ []

paid-ne-trial : (codes "paid" ≡ codes "trial") → ⊥
paid-ne-trial h = absurd (ground (arith, h))

record_all-total-tested : total (codes "paid") (record_all calls []) ≡ 3
unfolding text_beq
record_all-total-tested = record_all-total (codes "paid") calls [] refl paid-ne-trial

normalize_dsn-asyncpg :
    normalize_dsn (codes "postgresql+asyncpg://u@h/db") ≡ codes "postgresql://u@h/db"
unfolding normalize_dsn after span
normalize_dsn-asyncpg = refl

normalize_dsn-normalize_dsn-tested :
    normalize_dsn (normalize_dsn (codes "postgres+psycopg://h"))
    ≡ normalize_dsn (codes "postgres+psycopg://h")
normalize_dsn-normalize_dsn-tested = normalize_dsn-normalize_dsn (codes "postgres+psycopg://h")

abbrev dsn : Text
dsn = codes "postgres://h"

-- With an `init` of the caller's, the role is not set.
create_pool-init : (create_pool dsn (some (codes "omur_app")) 1 10 true none).init ≡ caller_init
unfolding create_pool
create_pool-init = refl

create_pool-role :
    (create_pool dsn (some (codes "omur_app")) 1 10 false none).init ≡ set_role (codes "omur_app")
unfolding create_pool
create_pool-role = refl

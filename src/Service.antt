-- ===== src/Service.antt =====
-- omkit/cost.py, omkit/health.py and omkit/dbpool.py: the counter of costs, the health endpoints and
-- the set-up of database pools. The counter of Prometheus is a list of what was added to it; asyncpg
-- is what the options are handed to.
pub mod Probes
pub mod Costs
pub mod Pools
mod Tests
use omkit_python.Prelude.{
  ℕ, zero, suc, ◌+◌, Bool, true, false, not, ◌&&◌, ◌||◌, Option, none, some, List, [], ◌∷◌, ◌++◌,
  if◌then◌else◌, ◌==◌, nat_eq, elem, leb,
}
use omkit_python.Prelude.Text.{Text, codes, text_eq, is_empty}
use omkit_python.Prelude.Dict.{Dict}
use omkit_python.Prelude.Int.{ℤ, pos, negsuc}
use omkit_python.Sanitize.{after, exactly, span}
use omkit_python.Json.{Value, str, obj, Fields, end, field}

-- The labels of `cost_units_total`.
pub record Labels : Type 0 where
  pub service : Text
  pub provider : Text
  pub op : Text
  pub tenant_bucket : Text

abbrev pub valid_buckets : List Text
valid_buckets = codes "system" ∷ codes "trial" ∷ codes "paid" ∷ []

abbrev pub bucket_of : Text → Text
bucket_of b = if elem b valid_buckets then b else codes "trial"

-- The counter: what was added for which labels. `works` is false where Prometheus raises, which is
-- dropped. Units are whole here.
unfoldable pub record_cost : (works : Bool) → Labels → ℤ → List (Labels × ℕ) → List (Labels × ℕ)
record_cost works l (negsuc n) counter = counter
record_cost works l (pos zero) counter = counter
record_cost works l (pos (suc n)) counter =
    if works
    then (record l { tenant_bucket = bucket_of l.tenant_bucket }, suc n) ∷ counter
    else counter

pub record Answer : Type 0 where
  pub status : ℕ
  pub body : Fields

abbrev pub named : Text → Text → Text → Fields → Fields
named status service version rest =
    field (codes "status") (str status)
      (field (codes "service") (str service) (field (codes "version") (str version) rest))

-- `_liveness`, which depends on nothing.
unfoldable pub liveness : Text → Text → Answer
liveness service version = record { status = 200; body = named (codes "ok") service version end }

abbrev pub all_ok : Dict Text Text → Bool
all_ok [] = true
all_ok ((k, v) ∷ cs) = v == codes "ok" && all_ok cs

abbrev pub check_fields : Dict Text Text → Fields
check_fields [] = end
check_fields ((k, v) ∷ cs) = field k (str v) (check_fields cs)

-- The result of `ready_check`, if one is given: checks, or a raise, which is passed on.
pub data Check : Type 0 where
  unset : Check
  checked : Dict Text Text → Check
  check_raised : Check

-- `_readiness`
unfoldable pub readiness : Text → Text → Check → Option Answer
readiness service version unset =
    some (record { status = 200; body = named (codes "ready") service version end })
readiness service version check_raised = none
readiness service version (checked cs) =
    let ready = all_ok cs in
    some (record {
      status = if ready then 200 else 503;
      body =
          named (if ready then codes "ready" else codes "not_ready") service version
            (field (codes "checks") (obj (check_fields cs)) end);
    })

-- The routes: `none` for another path.
unfoldable pub serve : Text → Text → Check → Text → Option (Option Answer)
unfolding liveness readiness
serve service version check path =
    if path == codes "/health" || path == codes "/healthz"
    then some (some (liveness service version))
    else if path == codes "/ready" || path == codes "/readyz"
    then some (readiness service version check)
    else none

-- `sqlalchemy_asyncpg_connect_args`: the two cache sizes, and the role.
pub record ConnectArgs : Type 0 where
  pub statement_cache_size : ℕ
  pub prepared_statement_cache_size : ℕ
  pub server_role : Option Text

unfoldable pub connect_args : Option Text → ConnectArgs
connect_args role = record {
  statement_cache_size = 0;
  prepared_statement_cache_size = 0;
  server_role = elim role [ none ↦ none | some r ↦ if is_empty r then none else some r ];
}

-- `[a-z0-9_]+` and `://` at the start of a text: what follows the scheme's suffix.
abbrev pub is_dialect : ℕ → Bool
is_dialect c = (leb b'a' c && leb c b'z') || (leb b'0' c && leb c b'9') || c == b'_'

abbrev pub starts_authority : Text → Bool
starts_authority (c ∷ d ∷ e ∷ s) = c == b':' && d == b'/' && e == b'/'
starts_authority _ = false

-- What follows characters of a dialect, one at least, if it starts with "://".
unfoldable pub after_dialect : Text → Option Text
unfolding span
after_dialect s =
    let (run, rest) = span is_dialect s in
    if not (is_empty run) && starts_authority rest then some rest else none

-- The rest after a scheme and its dialect.
unfoldable pub without_dialect : Text → Text → Option Text
unfolding after after_dialect
without_dialect scheme s = elim (after exactly (scheme ++ codes "+") s) [
  | none ↦ none
  | some r ↦ elim (after_dialect r) [ none ↦ none | some rest ↦ some (scheme ++ rest) ]
]

-- `_normalize_dsn`
unfoldable pub normalize_dsn : Text → Text
unfolding without_dialect
normalize_dsn s = elim (without_dialect (codes "postgresql") s) [
  | some t ↦ t
  | none ↦ elim (without_dialect (codes "postgres") s) [ some t ↦ t | none ↦ s ]
]

-- What a new connection runs.
pub data Init : Type 0 where
  no_init : Init
  caller_init : Init
  set_role : Text → Init

-- The arguments of `asyncpg.create_pool`.
pub record PoolCall : Type 0 where
  pub dsn : Text
  pub min_size : ℕ
  pub max_size : ℕ
  pub init : Init
  pub statement_cache_size : ℕ

-- `create_pool`, with the caller's `init` and `statement_cache_size`, if they are given.
unfoldable pub create_pool :
    Text → Option Text → (min_size max_size : ℕ) → (has_init : Bool) → Option ℕ → PoolCall
unfolding normalize_dsn
create_pool dsn role min_size max_size has_init cache = record {
  dsn = normalize_dsn dsn;
  min_size = min_size;
  max_size = max_size;
  init =
      if has_init
      then caller_init
      else elim role [ none ↦ no_init | some r ↦ if is_empty r then no_init else set_role r ];
  statement_cache_size = elim cache [ none ↦ 0 | some n ↦ n ];
}

-- `new_session_pool`
unfoldable pub new_session_pool :
    Text → Option Text → (min_size max_size : ℕ) → (has_init : Bool) → Option ℕ → PoolCall
unfolding create_pool
new_session_pool dsn role min_size max_size has_init cache =
    create_pool dsn role min_size max_size has_init cache

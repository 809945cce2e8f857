-- ===== src/Jobqueue/Streaq.antt =====
-- omkit/jobqueue/streaq.py: the worker's options, the middleware that binds the tenant of a task,
-- the enqueueing of a task, and the collector of metrics. A task is a function of its payload, its
-- further arguments and the context; keyword arguments are not told apart from those. The package
-- streaq is what the options and the enqueued values are handed to.
pub mod Delivery
mod Tests
use omkit_python.Prelude.{
  ℕ, ◌*◌, Bool, false, Option, none, some, List, [], ◌∷◌, ◌++◌, if◌then◌else◌, ◌==◌,
}
use omkit_python.Prelude.Text.{Text, Bytes, codes, text_eq, utf8}
use omkit_python.Prelude.Dict.{Dict, lookup}
use omkit_python.Prelude.Exceptions.{Result, ok, raise, ◌>>=◌}
use omkit_python.Json.{Value, Fields, dumps, compact}
use omkit_python.Tenant.{Context, bind}
use omkit_python.Jobqueue.Envelope.{
  Error, invalid_envelope, unicode_decode_error, Data, raw, parsed, Loaded, loaded, json_error,
  decode_error, Coercions, wrap, unwrap,
}

-- The keyword arguments of `make_worker`, with times in seconds.
pub record Options : Type 0 where
  pub concurrency : ℕ
  pub max_tries : ℕ
  pub task_timeout_seconds : ℕ
  pub ttl : ℕ
  pub handle_signals : Bool

abbrev pub default_options : Options
default_options = record {
  concurrency = 4;
  max_tries = 3;
  task_timeout_seconds = 300;
  ttl = 48 * 3600;
  handle_signals = false;
}

-- What `streaq.Worker` is called with, besides the serializers.
pub record WorkerCall : Type 0 where
  pub redis_url : Text
  pub queue_name : Text
  pub concurrency : ℕ
  pub handle_signals : Bool

unfoldable pub make_worker : Text → Text → Options → WorkerCall
make_worker redis_url queue_name o = record {
  redis_url = redis_url;
  queue_name = queue_name;
  concurrency = o.concurrency;
  handle_signals = o.handle_signals;
}

-- `_json_serializer`, of values that JSON has.
unfoldable pub json_serializer : Value → Bytes
json_serializer v = utf8 (dumps compact v)

abbrev pub Task : Type 0 → Type 0
Task R = Fields → List Data → Context → R × Context

module _ (is_uuid : Text → Bool) (c : Coercions) (loads : Bytes → Loaded) where
  -- `wrapper` of `tenant_middleware`.
  unfoldable pub tenant_middleware :
      {R : Type 0} → Task R → List Data → Context → Result Error R × Context
  unfolding unwrap bind
  tenant_middleware next [] ctx = (raise invalid_envelope, ctx)
  tenant_middleware next (arg ∷ args) ctx = elim (unwrap is_uuid c loads arg) [
    | raise x ↦ (raise x, ctx)
    | ok env ↦ let (r, after) = bind env.tenant_id none (next env.payload args) ctx in (ok r, after)
  ]

  -- `enqueue`: the value that `task.enqueue` is called with. `json.loads` reads what `wrap` wrote.
  unfoldable pub enqueue : Text → Fields → Result Error Value
  unfolding wrap
  enqueue tenant_id payload = do
    envelope ← wrap is_uuid c tenant_id payload []
    elim (loads envelope) [
      | loaded v ↦ ok v
      | json_error ↦ raise invalid_envelope
      | decode_error ↦ raise unicode_decode_error
    ]

abbrev pub counter_keys : List Text
counter_keys =
    codes "aborted"
    ∷ codes "completed"
    ∷ codes "failed"
    ∷ codes "relinquished"
    ∷ codes "retried"
    ∷ codes "running"
    ∷ []

-- A gauge with one sample: its name, the label `queue`, and the value.
pub record Sample : Type 0 where
  pub name : Text
  pub queue : Text
  pub value : ℕ

abbrev count_of : Option ℕ → ℕ
count_of none = 0
count_of (some n) = n

-- `collect`: a worker without a name or without counters counts as "default" with none.
unfoldable pub collect : Option Text → Option (Dict Text ℕ) → List Text → List Sample
collect queue_name counters [] = []
collect queue_name counters (key ∷ ks) =
    record {
      name = codes "streaq_worker_" ++ key;
      queue = elim queue_name [ none ↦ codes "default" | some q ↦ q ];
      value = elim counters [ none ↦ 0 | some d ↦ count_of (lookup key d) ];
    }
    ∷ collect queue_name counters ks

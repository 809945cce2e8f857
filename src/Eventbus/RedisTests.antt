-- ===== src/Eventbus/RedisTests.antt =====
-- Witnesses and tests for `RedisEventBus`.
use omkit_python.Prelude.{
  ℕ, ◌+◌, ◌≤◌, ◌≡◌, refl, Bool, true, false, Option, none, some, List, [], ◌∷◌, arith,
  if◌then◌else◌, ◌==◌, length,
}
use omkit_python.Prelude.Text.{Text, codes, text_eq, text_beq}
use omkit_python.Prelude.Dict.{lookup}
use omkit_python.Json.{Value, null}
use omkit_python.Eventbus.{Event}
use omkit_python.Valkey.{bytes, text, Item}
use omkit_python.Eventbus.Redis.{
  Client, RedisBus, redis, new_bus, redis_url, event_of, get_raw, round, subscribe,
}
use omkit_python.Eventbus.AtMostOnce.{entries, Counts, Bounded, subscribe-Bounded}
use omkit_python.Eventbus.Unreadable.{round-built}

-- A server with batches that wait, and what it and the handler count.
record World : Type 0 where
  batches : List (List Item)
  given : ℕ
  calls : ℕ
  returned : ℕ
  acked : ℕ

next : List (List Item) → World → Option (List (Text × List Item)) × World
next [] w = (none, w)
next (xs ∷ bs) w = (
  some ((codes "omur:events:t", xs) ∷ []),
  record w { batches = bs; given = w.given + length xs },
)

abbrev client : Client World
client = record {
  xadd = λ s fs w. (true, w);
  xgroup_create = λ s g w. (false, w);
  xreadgroup = λ g k s w. next w.batches w;
  xack = λ s g i w. (true, record w { acked = w.acked + 1 });
  aclose = λ w. (true, w);
}

-- It raises for events without a tenant.
handler : Event → World → Bool × World
handler e w = elim e.tenant_id [
  | none ↦ (false, record w { calls = w.calls + 1 })
  | some t ↦ (true, record w { calls = w.calls + 1; returned = w.returned + 1 })
]

abbrev bus : RedisBus
bus = record { consumer = codes "c"; group = codes "g"; stream_prefix = codes "omur:events:" }

next_given :
    (bs : List (List Item)) (w : World)
    → w.given + (elim (next bs w).0 [ none ↦ 0 | some rs ↦ entries rs ]) ≤ (next bs w).1.given
unfolding next
next_given [] w = omega arith
next_given (xs ∷ bs) w = omega arith

next_calls : (bs : List (List Item)) (w : World) → (next bs w).1.calls ≡ w.calls
unfolding next
next_calls [] w = refl
next_calls (xs ∷ bs) w = refl

next_returned : (bs : List (List Item)) (w : World) → (next bs w).1.returned ≡ w.returned
unfolding next
next_returned [] w = refl
next_returned (xs ∷ bs) w = refl

next_acked : (bs : List (List Item)) (w : World) → (next bs w).1.acked ≡ w.acked
unfolding next
next_acked [] w = refl
next_acked (xs ∷ bs) w = refl

abbrev loads : Text → Option Value
loads s = if s == codes "null" then some null else none

counts : Counts client bus (λ b. some b) loads 0 handler
unfolding handler
counts = record {
  given = λ w. w.given;
  calls = λ w. w.calls;
  returned = λ w. w.returned;
  acked = λ w. w.acked;
  create_given = λ s g w. refl;
  create_calls = λ s g w. refl;
  create_returned = λ s g w. refl;
  create_acked = λ s g w. refl;
  read_given = λ g k s w. next_given w.batches w;
  read_calls = λ g k s w. next_calls w.batches w;
  read_returned = λ g k s w. next_returned w.batches w;
  read_acked = λ g k s w. next_acked w.batches w;
  ack_given = λ s g i w. refl;
  ack_calls = λ s g i w. refl;
  ack_returned = λ s g i w. refl;
  ack_acked = λ s g i w. omega arith;
  handler_given = λ e w. ground arith;
  handler_calls = λ e w. ground arith;
  handler_returned = λ e w. ground arith;
  handler_acked = λ e w. ground arith;
}

-- An entry of a tenant, one of none, and one that is no JSON.
abbrev good : Item
good = record {
  msg_id = text (codes "1-0");
  raw_fields =
      (bytes (codes "payload"), bytes (codes "null"))
      ∷ (bytes (codes "tenant_id"), bytes (codes "t"))
      ∷ [];
}

abbrev failing : Item
failing = record {
  msg_id = text (codes "2-0");
  raw_fields = (text (codes "payload"), text (codes "null")) ∷ [];
}

abbrev broken : Item
broken = record {
  msg_id = text (codes "3-0");
  raw_fields = (bytes (codes "payload"), bytes (codes "{")) ∷ [];
}

abbrev waiting : List (List Item) → World
waiting bs = record { batches = bs; given = 0; calls = 0; returned = 0; acked = 0 }

runs : Unit {0}
unfolding subscribe next handler event_of get_raw lookup text_beq
runs = tt

-- The entry whose handler raised is not handed over by the second round.
subscribe-pending :
    subscribe client bus
      (λ b. some b)
      loads
      0
      handler
      (codes "t")
      ((λ w. w) ∷ (λ w. w) ∷ [])
      (waiting ((good ∷ failing ∷ []) ∷ []))
    ≡ (true, record { batches = []; given = 2; calls = 2; returned = 1; acked = 1 })
unfolding runs
subscribe-pending = refl

-- The entry that is no JSON ends the loop before the good one.
subscribe-broken :
    subscribe client bus
      (λ b. some b)
      loads
      0
      handler
      (codes "t")
      ((λ w. w) ∷ (λ w. w) ∷ [])
      (waiting ((broken ∷ good ∷ []) ∷ (good ∷ []) ∷ []))
    ≡ (false, record { batches = (good ∷ []) ∷ []; given = 2; calls = 0; returned = 0; acked = 0 })
unfolding runs
subscribe-broken = refl

abbrev pair : World
pair = waiting ((good ∷ failing ∷ []) ∷ [])

subscribe-Bounded_example :
    Bounded client bus
      (λ b. some b)
      loads
      0
      handler
      counts
      pair
      (subscribe client bus (λ b. some b) loads 0 handler (codes "t") ((λ w. w) ∷ []) pair).1
unfolding counts
subscribe-Bounded_example =
    subscribe-Bounded client bus (λ b. some b) loads 0 handler counts (codes "t") ((λ w. w) ∷ [])
      pair ((λ w. (refl, omega arith, refl, refl)), tt)

round-built_example :
    (round client bus (λ b. some b) loads 0 handler (codes "t") (waiting ((broken ∷ []) ∷ []))).0
    ≡ false
unfolding runs
round-built_example =
    round-built client bus (λ b. some b) loads 0 handler (codes "t") (waiting ((broken ∷ []) ∷ []))

-- A password is not quoted: one with a colon and an at sign makes the address name another host.
redis_url-password :
    redis_url (record { backend = none; host = none; port = none; password = some (codes "a@b") })
    ≡ codes "redis://:a@b@valkey:6379"
unfolding redis_url
redis_url-password = refl

new_bus-redis :
    new_bus
      (record { backend = some (codes "redis"); host = none; port = none; password = none })
      false
      true
      (codes "c")
      none
    ≡ redis none (codes "c") (codes "c")
unfolding new_bus text_beq
new_bus-redis = refl

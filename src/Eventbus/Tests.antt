-- ===== src/Eventbus/Tests.antt =====
-- Witnesses and tests for the event bus.
use omkit_python.Prelude.{
  ℕ, ◌≡◌, refl, Bool, true, false, Option, none, List, [], ◌∷◌, arith, if◌then◌else◌, eqb, pair_eq,
}
use omkit_python.Prelude.Text.{Text, codes, text_eq, text_beq}
use omkit_python.Prelude.Dict.{lookup, insert}
use omkit_python.Json.{value, Value, null}
use omkit_python.Eventbus.{
  Event, Tables, Bus, publish, publish_tenant, subscribe, register_consumer, poll_once,
  nil_tenant_id,
}
use omkit_python.Eventbus.Batches.{Logs}
use omkit_python.Eventbus.Delivery.{polls, here, next}
use omkit_python.Eventbus.Late.{IsPassed, late_event_lost}

abbrev loads : List ℕ → Option Value
loads s = none

-- A handler that raises on the event 3.
handler : Event → List ℕ → Bool × List ℕ
handler e w = if eqb e.id 3 then (false, w) else (true, e.id ∷ w)

logs : Logs handler
unfolding handler
logs = record { log = λ w. w; returns = λ e w h. ground arith; raises = λ e w h. ground arith }

abbrev bus : Bus
bus = record { consumer = codes "c"; batch = 100 }

abbrev topic : Text
topic = codes "t"

-- A subscriber that has seen nothing, and a table with the event 1.
abbrev start : Tables
start = record {
  events =
      (record {
        id = 1;
        tenant_id = nil_tenant_id;
        topic = topic;
        payload = value null;
        created_at = 0;
      })
      ∷ [];
  offsets = ((codes "c", topic), 0) ∷ [];
}

runs : Unit {0}
unfolding publish publish_tenant register_consumer poll_once handler insert lookup text_beq
runs = tt

-- The event 2 is published while the subscriber waits.
subscribe-handled :
    let w =
      (subscribe loads loads handler bus topic
        (publish 2 0 topic (value null) ∷ [])
        (record start { offsets = [] })
        []).1 in
    w ≡ 2 ∷ 1 ∷ []
unfolding runs subscribe
subscribe-handled = refl

start-built :
    register_consumer bus topic
      (publish 1 0 topic (value null) (record { events = []; offsets = [] }))
    ≡ start
unfolding runs
start-built = refl

abbrev poll : Tables → List ℕ → Tables × List ℕ
poll = poll_once loads loads handler bus topic

-- The event 3 stops a batch: nothing is written, and the event 1 is handled again by the next poll.
redelivery :
    let t = publish 3 0 topic (value null) start in
    let (t', w) = poll t [] in (t' ≡ t) × (w ≡ 1 ∷ []) × ((poll t' w).1 ≡ 1 ∷ 1 ∷ [])
unfolding runs
redelivery = (refl, refl, refl)

abbrev polled : Tables × List ℕ
polled = poll start []

-- The event 1 becomes visible when the offset is 2.
abbrev late : Tables
late = record start { offsets = ((codes "c", topic), 2) ∷ [] }

late_event_lost_example : IsPassed loads loads handler logs bus topic 1 (poll late (2 ∷ []))
unfolding lookup text_beq logs
late_event_lost_example =
    late_event_lost loads loads handler logs bus topic 1 {st = (late, 2 ∷ [])}
      (record { offset = 2; known = refl; passed = omega arith; unseen = refl })
      (next here (polls late (2 ∷ [])))

-- A handler that never raises.
abbrev steady : Event → List ℕ → Bool × List ℕ
steady e w = (true, e.id ∷ w)

steady_logs : Logs steady
steady_logs = record { log = λ w. w; returns = λ e w h. refl; raises = λ e w h. cc }

abbrev two_rows : Tables
two_rows = publish 2 0 topic (value null) start

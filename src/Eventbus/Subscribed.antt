-- ===== src/Eventbus/Subscribed.antt =====
-- omkit/eventbus.py: `subscribe`, from the registration of the consumer to the end of its loop.
use omkit_python.Prelude.{
  ℕ, ◌≡◌, refl, Bool, Option, none, List, [], ◌∷◌, arith, pair_eq, pair_beq_iff, ◌≤◌,
}
use omkit_python.Prelude.Text.{Text, Bytes, text_eq}
use omkit_python.Prelude.Dict.{lookup, lookup-insert}
use omkit_python.Json.{Value}
use omkit_python.Eventbus.{Row, Event, Tables, Bus, register_consumer, poll_once, rounds, subscribe}
use omkit_python.Eventbus.Order.{Ascending, Covered}
use omkit_python.Eventbus.Batches.{Logs}
use omkit_python.Eventbus.Delivery.{Reach, IsDelivered, Reach-IsDelivered, poll_once-IsDelivered}

module _ (loads_bytes : Bytes → Option Value) (loads_text : Text → Option Value) {W : Type 0}
    (handler : Event → W → Bool × W) (lg : Logs handler) (b : Bus) (topic : Text) where
  abbrev pub poll : Tables → W → Tables × W
  poll = poll_once loads_bytes loads_text handler b topic

  -- What others do in each wait are steps of the environment, from the state at that time.
  abbrev pub Proper : List (Tables → Tables) → Tables × W → Type 0
  Proper [] st = Unit {0}
  Proper (meanwhile ∷ waits) (t, w) =
      Reach loads_bytes loads_text handler lg b topic (t, w) (meanwhile t, w)
      × Proper waits (poll (meanwhile t) w)

  rounds-IsDelivered :
      (waits : List (Tables → Tables)) (t : Tables) (w : W)
      → Proper waits (t, w)
      → IsDelivered loads_bytes loads_text handler lg b topic (t, w)
      → IsDelivered loads_bytes loads_text handler lg b topic
          (rounds loads_bytes loads_text handler b topic waits t w)
  unfolding rounds
  rounds-IsDelivered [] t w p v = v
  rounds-IsDelivered (f ∷ waits) t w p v =
      let (t', w') = poll (f t) w in
      rounds-IsDelivered waits t' w' p.1 (
        poll_once-IsDelivered loads_bytes loads_text handler lg b topic (f t) w
          (Reach-IsDelivered loads_bytes loads_text handler lg b topic v p.0))

  low-Covered :
      (m n : ℕ) (log : List ℕ) (l : List Row) → m ≤ n → Ascending n l → Covered topic m log l
  low-Covered m n log [] h a = tt
  low-Covered m n log (r ∷ l) h a =
      ((λ e le. absurd (omega (arith, a.0))), low-Covered m r.id log l (omega (arith, a.0)) a.1)

  registered-IsDelivered :
      (t : Tables) (w : W)
      → lookup (b.consumer, topic) t.offsets ≡ none
      → Ascending 0 t.events
      → IsDelivered loads_bytes loads_text handler lg b topic (register_consumer b topic t, w)
  unfolding register_consumer
  registered-IsDelivered t w h a =
      rw (h, register_consumer)
        (record {
          offset = 0;
          known = rw (
            lookup-insert (b.consumer, topic) (b.consumer, topic) 0 t.offsets,
            (pair_beq_iff (b.consumer, topic) (b.consumer, topic)).1 refl,
          );
          ascending = a;
          covered = low-Covered 0 0 (lg.log w) t.events (omega arith) a;
        })

  -- A new consumer that subscribes to a topic is passed over by no event: whatever the handler
  -- raises, when `subscribe` returns every event of the topic up to the consumer's offset was handled
  -- by a handler that returned. The ids in the table are positive and grow, and what others do
  -- during the waits are publications with ids above the offset and writes of other offsets.
  pub subscribe-IsDelivered :
      (waits : List (Tables → Tables)) (t : Tables) (w : W)
      → lookup (b.consumer, topic) t.offsets ≡ none
      → Ascending 0 t.events
      → Proper waits (poll (register_consumer b topic t) w)
      → IsDelivered loads_bytes loads_text handler lg b topic
          (subscribe loads_bytes loads_text handler b topic waits t w)
  unfolding subscribe
  subscribe-IsDelivered waits t w h a p =
      let (t', w') = poll (register_consumer b topic t) w in
      rounds-IsDelivered waits t' w' p (
        poll_once-IsDelivered loads_bytes loads_text handler lg b topic
          (register_consumer b topic t) w (registered-IsDelivered t w h a))

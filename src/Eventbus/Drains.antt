-- ===== src/Eventbus/Drains.antt =====
-- omkit/eventbus.py: polls of a topic come to an end, if the handler does not raise.
use omkit_python.Prelude.{
  ℕ, zero, suc, ◌≤◌, ◌≡◌, Bool, true, Option, List, [], ◌∷◌, if◌then◌else◌, ltb, ◌==◌, elem, All,
  length, nat_eq, pair_eq,
}
use omkit_python.Prelude.Text.{Text, Bytes, text_eq}
use omkit_python.Prelude.Dict.{is_some}
use omkit_python.Json.{Value}
use omkit_python.Eventbus.{Row, Event, Tables, Bus, pending, parse_payload, poll_once}
use omkit_python.Eventbus.Batches.{Logs}
use omkit_python.Eventbus.Delivery.{IsDelivered}

-- The rows with ids above a bound.
above : ℕ → List Row → List Row
above m [] = []
above m (r ∷ l) = let rest = above m l in if ltb m r.id then r ∷ rest else rest

module _ (loads_bytes : Bytes → Option Value) (loads_text : Text → Option Value) {W : Type 0}
    (handler : Event → W → Bool × W) (lg : Logs handler)
    (steady : (e : Event) (w : W) → (handler e w).0 ≡ true) where
  -- The payload of the row can be parsed.
  abbrev pub IsReadable : Row → Type 0
  IsReadable r = is_some (parse_payload loads_bytes loads_text r.payload) ≡ true

  module _ (b : Bus) (topic : Text) (some_batch : 1 ≤ b.batch) where
    abbrev Ready : Tables × W → Type 0
    Ready st = IsDelivered loads_bytes loads_text handler lg b topic st × All IsReadable st.0.events

    abbrev pub poll : Tables × W → Tables × W
    poll (t, w) = poll_once loads_bytes loads_text handler b topic t w

    -- What is still to be handled, by an offset.
    abbrev rest_at : ℕ → Tables × W → ℕ
    rest_at n st = length (pending topic n st.0.events)

    -- Every row of the topic was handled.
    abbrev pub AllHandled : List ℕ → List Row → Type 0
    AllHandled log l = All (λ r. (r.topic == topic) ≡ true → elem r.id log ≡ true) l

    abbrev pub poll_times : ℕ → Tables × W → Tables × W
    poll_times zero st = st
    poll_times (suc k) st = poll_times k (poll st)

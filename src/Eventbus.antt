-- ===== src/Eventbus.antt =====
-- omkit/eventbus.py: `PostgresEventBus`. The two tables are a state: `events` in the order of its
-- ids, and `event_offsets` by consumer and topic; each query of the source is a function on them.
-- The handler is a parameter, with a world of its own, and so is `json.loads`.
pub mod Order
pub mod Batches
pub mod Delivery
pub mod Drains
pub mod Late
pub mod Subscribed
pub mod Redis
pub mod AtMostOnce
pub mod Unreadable
mod RedisTests
mod Tests
use omkit_python.Prelude.{
  ℕ, ◌≡◌, Bool, true, false, ◌&&◌, Option, none, some, List, [], ◌∷◌, if◌then◌else◌, ltb, ◌==◌,
  take, zero, eqb, pair_eq,
}
use omkit_python.Prelude.Text.{Text, Bytes, codes, text_eq, is_empty}
use omkit_python.Prelude.Dict.{Dict, lookup, insert}
use omkit_python.Json.{Value, Column, raw, text, value}

abbrev pub nil_tenant_id : Text
nil_tenant_id = codes "00000000-0000-0000-0000-000000000000"

pub record Row : Type 0 where
  pub id : ℕ
  pub tenant_id : Text
  pub topic : Text
  pub payload : Column
  pub created_at : ℕ

pub record Event : Type 0 where
  pub id : ℕ
  pub topic : Text
  pub payload : Value
  pub tenant_id : Option Text
  pub created_at : ℕ

pub record Tables : Type 0 where
  pub events : List Row
  pub offsets : Dict (Text × Text) ℕ

pub record Bus : Type 0 where
  pub consumer : Text
  pub batch : ℕ

-- A row goes to its place in the order of the ids.
unfoldable pub insert_row : Row → List Row → List Row
insert_row r [] = r ∷ []
insert_row r (q ∷ l) = if ltb r.id q.id then r ∷ q ∷ l else q ∷ insert_row r l

-- The row that `publish` and `publish_tenant` insert; the table gives it its id and its time.
unfoldable pub publish : (id now : ℕ) → Text → Column → Tables → Tables
unfolding insert_row
publish id now topic payload t =
    let r : Row = record {
      id = id;
      tenant_id = nil_tenant_id;
      topic = topic;
      payload = payload;
      created_at = now;
    } in
    record t { events = insert_row r t.events }

unfoldable pub publish_tenant : (id now : ℕ) → Text → Text → Column → Tables → Tables
unfolding publish insert_row
publish_tenant id now tenant_id topic payload t =
    if is_empty tenant_id
    then publish id now topic payload t
    else (let r : Row = record {
      id = id;
      tenant_id = tenant_id;
      topic = topic;
      payload = payload;
      created_at = now;
    } in
        record t { events = insert_row r t.events })

-- The start of `subscribe`: `INSERT … ON CONFLICT DO NOTHING`.
unfoldable pub register_consumer : Bus → Text → Tables → Tables
register_consumer b topic t = elim (lookup (b.consumer, topic) t.offsets) [
  | none ↦ record t { offsets = insert (b.consumer, topic) 0 t.offsets }
  | some last_id ↦ t
]

-- `topic = $1 AND id > last_id`, in the order of the ids.
unfoldable pub pending : Text → ℕ → List Row → List Row
pending topic last_id [] = []
pending topic last_id (r ∷ l) =
    let rest = pending topic last_id l in
    if r.topic == topic && ltb last_id r.id then r ∷ rest else rest

-- The query of `_poll_once`. With no offset the comparison is with NULL, and selects nothing.
unfoldable pub fetch : Bus → Text → Tables → List Row
unfolding pending
fetch b topic t = elim (lookup (b.consumer, topic) t.offsets) [
  | none ↦ []
  | some last_id ↦ take b.batch (pending topic last_id t.events)
]

-- `if last_id: UPDATE event_offsets …`
unfoldable pub save_offset : Bus → Text → ℕ → Tables → Tables
save_offset b topic last_id t =
    if eqb last_id 0 then t else elim (lookup (b.consumer, topic) t.offsets) [
      | none ↦ t
      | some before ↦ record t { offsets = insert (b.consumer, topic) last_id t.offsets }
    ]

module _ (loads_bytes : Bytes → Option Value) (loads_text : Text → Option Value) where
  -- `_parse_payload`; `none` where it raises.
  unfoldable pub parse_payload : Column → Option Value
  parse_payload (raw b) = loads_bytes b
  parse_payload (text s) = loads_text s
  parse_payload (value v) = some v

  module _ {W : Type 0} (handler : Event → W → Bool × W) where
    -- One round of the loop of `_poll_once`: the event is built, and the handler is awaited. The
    -- Boolean is `false` where one of them raised.
    unfoldable pub handle : Row → W → Bool × W
    unfolding parse_payload
    handle r w = elim (parse_payload r.payload) [
      | none ↦ (false, w)
      | some v ↦
          handler
            (record {
              id = r.id;
              topic = r.topic;
              payload = v;
              tenant_id = some r.tenant_id;
              created_at = r.created_at;
            })
            w
    ]

    -- The loop: the last id that was handled, or `none` if a round raised.
    unfoldable pub deliver : ℕ → List Row → W → Option ℕ × W
    unfolding handle
    deliver last_id [] w = (some last_id, w)
    deliver last_id (r ∷ rs) w =
        let (returned, w') = handle r w in
        let rest = deliver r.id rs w' in if returned then rest else (none, w')

    -- `_poll_once`: the offset is written only after the whole batch was handled.
    unfoldable pub poll_once : Bus → Text → Tables → W → Tables × W
    unfolding fetch deliver save_offset
    poll_once b topic t w =
        let (last, w') = deliver 0 (fetch b topic t) w in
        elim last [ none ↦ (t, w') | some last_id ↦ (save_offset b topic last_id t, w') ]

    -- The loop of `subscribe`: for each wait that ends by its timeout, what others do to the tables
    -- meanwhile, and a poll, whose exception is dropped. At the end of the list the bus is closed.
    unfoldable pub rounds : Bus → Text → List (Tables → Tables) → Tables → W → Tables × W
    unfolding poll_once
    rounds b topic [] t w = (t, w)
    rounds b topic (meanwhile ∷ waits) t w =
        let (t', w') = poll_once b topic (meanwhile t) w in rounds b topic waits t' w'

    -- `subscribe`
    unfoldable pub subscribe : Bus → Text → List (Tables → Tables) → Tables → W → Tables × W
    unfolding register_consumer poll_once rounds
    subscribe b topic waits t w =
        let (t', w') = poll_once b topic (register_consumer b topic t) w in
        rounds b topic waits t' w'

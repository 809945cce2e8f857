-- ===== src/Eventbus/Redis.antt =====
-- omkit/eventbus.py: `RedisEventBus`, and the choice of a backend by `new_bus`. The client of Redis
-- and the handler act on one world; `json.loads` and the decoding of UTF-8 are parameters.
use omkit_python.Prelude.{
  ℕ, Bool, true, false, Option, none, some, List, [], ◌∷◌, ◌++◌, if◌then◌else◌, ◌==◌,
}
use omkit_python.Prelude.Text.{Text, Bytes, codes, text_eq, is_empty}
use omkit_python.Prelude.Dict.{lookup}
use omkit_python.Json.{Value, dumps, plain}
use omkit_python.Eventbus.{Event}
use omkit_python.Valkey.{Raw, bytes, text, raw_eq, Pairs, Item}

pub record Client (W : Type 0) : Type 0 where
  pub xadd : (stream : Text) → List (Text × Text) → W → Bool × W
  pub xgroup_create : (stream group : Text) → W → Bool × W
  pub xreadgroup : (group consumer stream : Text) → W → Option (List (Text × List Item)) × W
  pub xack : (stream group : Text) → Raw → W → Bool × W
  pub aclose : W → Bool × W

pub record RedisBus : Type 0 where
  pub consumer : Text
  pub group : Text
  pub stream_prefix : Text

-- `_stream`
abbrev pub stream : RedisBus → Text → Text
stream b topic = b.stream_prefix ++ topic

-- Bytes and text that are empty are falsy.
abbrev pub raw_empty : Raw → Bool
raw_empty (bytes b) = is_empty b
raw_empty (text s) = is_empty s

-- `fields.get(b"name") or fields.get("name")`
unfoldable pub get_raw : Text → Pairs → Option Raw
get_raw name fields = elim (lookup (bytes name) fields) [
  | none ↦ lookup (text name) fields
  | some v ↦ if raw_empty v then lookup (text name) fields else some v
]

module _ {W : Type 0} (c : Client W) (b : RedisBus) where
  unfoldable pub publish : Text → Value → W → Bool × W
  publish topic payload w = c.xadd (stream b topic) ((codes "payload", dumps plain payload) ∷ []) w

  unfoldable pub publish_tenant : Text → Text → Value → W → Bool × W
  publish_tenant tenant_id topic payload w =
      c.xadd (stream b topic)
        ((codes "tenant_id", tenant_id) ∷ (codes "payload", dumps plain payload) ∷ []) w

  module _ (decode : Bytes → Option Text) (loads : Text → Option Value) (now : ℕ) where
    -- `isinstance(raw, bytes)` and `raw.decode()`
    abbrev pub as_text : Raw → Option Text
    as_text (bytes s) = decode s
    as_text (text s) = some s

    -- The tenant of the event, `tenant_raw or None`; the outer `none` is a raise.
    abbrev pub tenant_of : Option Raw → Option (Option Text)
    tenant_of none = some none
    tenant_of (some r) = elim (as_text r) [
      | none ↦ none
      | some t ↦ some (if is_empty t then none else some t)
    ]

    -- `json.loads(None)` raises too.
    abbrev pub payload_of : Option Raw → Option Value
    payload_of none = none
    payload_of (some r) = elim (as_text r) [ none ↦ none | some s ↦ loads s ]

    -- The event of an entry; `none` where building it raises, which no `try` catches.
    unfoldable pub event_of : Text → Pairs → Option Event
    unfolding get_raw
    event_of topic fields = elim (payload_of (get_raw (codes "payload") fields)) [
      | none ↦ none
      | some v ↦ elim (tenant_of (get_raw (codes "tenant_id") fields)) [
        | none ↦ none
        | some t ↦
            some (record { id = 0; topic = topic; payload = v; tenant_id = t; created_at = now })
      ]
    ]

    module _ (handler : Event → W → Bool × W) where
      -- The handler and XACK; what either raises is dropped.
      unfoldable pub handle : Text → Raw → Event → W → W
      handle topic msg_id e w =
          let (returned, w') = handler e w in
          if returned then (c.xack (stream b topic) b.group msg_id w').1 else w'

      -- The entries of one stream; `false` if an entry raised.
      unfoldable pub deliver : Text → List Item → W → Bool × W
      unfolding event_of handle
      deliver topic [] w = (true, w)
      deliver topic (x ∷ xs) w = elim (event_of topic x.raw_fields) [
        | none ↦ (false, w)
        | some e ↦ deliver topic xs (handle topic x.msg_id e w)
      ]

      unfoldable pub deliver_all : Text → List (Text × List Item) → W → Bool × W
      unfolding deliver
      deliver_all topic [] w = (true, w)
      deliver_all topic ((name, xs) ∷ rs) w =
          let (go, w') = deliver topic xs w in
          let rest = deliver_all topic rs w' in if go then rest else (false, w')

      -- A round of the loop: a read that raises is followed by a pause and the next round.
      unfoldable pub round : Text → W → Bool × W
      unfolding deliver_all
      round topic w =
          let (resp, w') = c.xreadgroup b.group b.consumer (stream b topic) w in
          elim resp [ none ↦ (true, w') | some rs ↦ deliver_all topic rs w' ]

      -- The rounds until the bus is closed, each with what others do before it.
      unfoldable pub rounds : Text → List (W → W) → W → Bool × W
      unfolding round
      rounds topic [] w = (true, w)
      rounds topic (meanwhile ∷ waits) w =
          let (go, w') = round topic (meanwhile w) in
          let rest = rounds topic waits w' in if go then rest else (false, w')

      -- `subscribe`, whose Boolean is `false` if it raised.
      unfoldable pub subscribe : Text → List (W → W) → W → Bool × W
      unfolding rounds
      subscribe topic waits w = rounds topic waits (c.xgroup_create (stream b topic) b.group w).1

  unfoldable pub close : W → Bool × W
  close w = c.aclose w

-- `backend_from_env` and `new_bus`
pub data Chosen : Type 0 where
  postgres : (consumer : Text) → Chosen
  redis : (url : Option Text) → (consumer group : Text) → Chosen
  value_error : Chosen

-- VALKEY_HOST, VALKEY_PORT and VALKEY_PASSWORD
pub record Environment : Type 0 where
  pub backend : Option Text
  pub host : Option Text
  pub port : Option Text
  pub password : Option Text

abbrev pub get_or : Text → Option Text → Text
get_or d none = d
get_or d (some t) = t

unfoldable pub redis_url : Environment → Text
redis_url v =
    let at = get_or (codes "valkey") v.host ++ (b':' ∷ get_or (codes "6379") v.port) in
    if is_empty (get_or [] v.password)
    then codes "redis://" ++ at
    else codes "redis://:" ++ (get_or [] v.password ++ (b'@' ∷ at))

-- `url` is the address that a client is made for, if none was given.
unfoldable pub new_bus : Environment → (has_pool has_client : Bool) → Text → Option Text → Chosen
unfolding redis_url
new_bus v has_pool has_client consumer group =
    let backend = get_or (codes "postgres") v.backend in
    if backend == codes "postgres"
    then if has_pool then postgres consumer else value_error
    else if backend == codes "redis"
    then redis (if has_client then none else some (redis_url v)) consumer
        (if is_empty (get_or [] group) then consumer else get_or [] group)
    else value_error

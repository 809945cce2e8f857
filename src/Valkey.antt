-- ===== src/Valkey.antt =====
-- omkit/valkeystream.py: producers and consumers of Redis streams. The client of Redis is a parameter,
-- operations on a world that may raise, and so is the decoding of UTF-8. What the client hands over
-- is bytes or, with `decode_responses=True`, text.
pub mod Modes
pub mod Subscriber
pub mod Reconnects
mod Tests
mod SubscriberTests
use omkit_python.Prelude.{
  ℕ, ◌≡◌, ◌↔◌, Bool, true, false, ◌&&◌, Option, none, some, List, [], ◌∷◌, ◌++◌, arith,
  if◌then◌else◌, Eq, ◌==◌, nat_eq,
}
use omkit_python.Prelude.Text.{Text, Bytes, codes, text_eq, text_beq, text_beq_iff, utf8}
use omkit_python.Prelude.Dict.{Dict, insert}

-- `Union[str, bytes]`
pub data Raw : Type 0 where
  bytes : Bytes → Raw
  text : Text → Raw

abbrev raw_beq : Raw → Raw → Bool
raw_beq (bytes a) (bytes b) = text_beq a b
raw_beq (text a) (text b) = text_beq a b
raw_beq _ _ = false

pub raw_beq_iff : (a b : Raw) → (raw_beq a b ≡ true) ↔ (a ≡ b)
raw_beq_iff (bytes a) (bytes b) = ground (arith, text_beq_iff a b)
raw_beq_iff (text a) (text b) = ground (arith, text_beq_iff a b)
raw_beq_iff (bytes a) (text b) = ground arith
raw_beq_iff (text a) (bytes b) = ground arith

instance abbrev pub raw_eq : Eq Raw
raw_eq = record { same = raw_beq; same_iff = raw_beq_iff }

abbrev pub Pairs : Type 0
Pairs = List (Raw × Raw)

-- An entry as the client hands it over, and a `StreamMessage`.
pub record Item : Type 0 where
  pub msg_id : Raw
  pub raw_fields : Pairs

pub record StreamMessage : Type 0 where
  pub id : Text
  pub fields : Dict Text Bytes

-- The response to XAUTOCLAIM: falsy, of one part, or with the claimed entries as its second part.
pub data Claimed : Type 0 where
  nothing : Claimed
  cursor_only : Claimed
  entries : List Item → Claimed

-- The client, in which `none` is a raise, with the text of the exception for XGROUP CREATE.
pub record Client (W : Type 0) : Type 0 where
  pub xadd : (stream : Text) → List (Text × Raw) → W → Option Raw × W
  pub xgroup_create : (stream group : Text) → W → Option Text × W
  pub xreadgroup :
      (group consumer stream : Text) (count block_ms : ℕ) → W → Option (List (Text × List Item)) × W
  pub xack : (stream group : Text) → Text → W → Bool × W
  pub xautoclaim : (stream group consumer : Text) (idle_ms count : ℕ) → W → Option Claimed × W

pub record StreamConsumer : Type 0 where
  pub stream : Text
  pub group : Text
  pub consumer : Text
  pub block_ms : ℕ
  pub count : ℕ

-- Whether `t` occurs in `s`.
unfoldable pub prefixes : Text → Text → Bool
prefixes [] s = true
prefixes (c ∷ p) [] = false
prefixes (c ∷ p) (d ∷ s) = c == d && prefixes p s

unfoldable pub occurs : Text → Text → Bool
unfolding prefixes
occurs t [] = prefixes t []
occurs t (c ∷ s) = let later = occurs t s in if prefixes t (c ∷ s) then true else later

module _ (decode : Bytes → Option Text) where
  -- `_coerce_id`, and the key of a field.
  unfoldable pub coerce_id : Raw → Option Text
  coerce_id (bytes b) = decode b
  coerce_id (text s) = some s

  unfoldable pub field_value : Raw → Bytes
  field_value (bytes b) = b
  field_value (text s) = utf8 s

  -- The loop of `_normalize_fields`, from the dict that it has so far.
  unfoldable pub normalize_from : Dict Text Bytes → Pairs → Option (Dict Text Bytes)
  unfolding coerce_id field_value
  normalize_from out [] = some out
  normalize_from out ((k, v) ∷ ps) = elim (coerce_id k) [
    | none ↦ none
    | some key ↦ normalize_from (insert key (field_value v) out) ps
  ]

  unfoldable pub normalize_fields : Pairs → Option (Dict Text Bytes)
  unfolding normalize_from
  normalize_fields = normalize_from []

  unfoldable pub message_from_pair : Item → Option StreamMessage
  unfolding normalize_fields coerce_id
  message_from_pair item = elim (coerce_id item.msg_id) [
    | none ↦ none
    | some i ↦ elim (normalize_fields item.raw_fields) [
      | none ↦ none
      | some fs ↦ some (record { id = i; fields = fs })
    ]
  ]

  -- The messages of a list of entries; a decoding that fails raises.
  unfoldable pub messages : List Item → Option (List StreamMessage)
  unfolding message_from_pair
  messages [] = some []
  messages (x ∷ xs) = elim (message_from_pair x) [
    | none ↦ none
    | some m ↦ elim (messages xs) [ none ↦ none | some ms ↦ some (m ∷ ms) ]
  ]

  -- `_flatten`
  unfoldable pub flatten : List (Text × List Item) → Option (List StreamMessage)
  unfolding messages
  flatten [] = some []
  flatten ((name, xs) ∷ rs) = elim (messages xs) [
    | none ↦ none
    | some ms ↦ elim (flatten rs) [ none ↦ none | some ns ↦ some (ms ++ ns) ]
  ]

  module _ {W : Type 0} (c : Client W) where
    -- `StreamProducer.add`
    unfoldable pub add : Text → List (Text × Raw) → W → Option Text × W
    unfolding coerce_id
    add stream fields w =
        let (r, w') = c.xadd stream fields w in (elim r [ none ↦ none | some i ↦ coerce_id i ], w')

    module _ (k : StreamConsumer) where
      -- `ensure_group`: the Boolean is `false` if it raised.
      unfoldable pub ensure_group : W → Bool × W
      unfolding occurs
      ensure_group w =
          let (error, w') = c.xgroup_create k.stream k.group w in
          (elim error [ none ↦ true | some message ↦ occurs (codes "BUSYGROUP") message ], w')

      unfoldable pub read : W → Option (List StreamMessage) × W
      unfolding flatten
      read w =
          let (resp, w') = c.xreadgroup k.group k.consumer k.stream k.count k.block_ms w in
          (elim resp [ none ↦ none | some rs ↦ flatten rs ], w')

      unfoldable pub ack : Text → W → Bool × W
      ack msg_id w = c.xack k.stream k.group msg_id w

      unfoldable pub claim_stale : ℕ → W → Option (List StreamMessage) × W
      unfolding messages
      claim_stale idle_ms w =
          let (result, w') = c.xautoclaim k.stream k.group k.consumer idle_ms k.count w in
          (
            elim result [
              | none ↦ none
              | some nothing ↦ some []
              | some cursor_only ↦ some []
              | some (entries xs) ↦ messages xs
            ],
            w',
          )

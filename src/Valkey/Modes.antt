-- ===== src/Valkey/Modes.antt =====
-- omkit/valkeystream.py: clients with and without `decode_responses`.
use omkit_python.Prelude.{◌≡◌, refl, Option, some, List, [], ◌∷◌, ◌++◌, arith}
use omkit_python.Prelude.Text.{Text, Bytes, utf8, text_eq}
use omkit_python.Prelude.Dict.{Dict, insert}
use omkit_python.Valkey.{
  bytes, text, Pairs, Item, StreamMessage, coerce_id, field_value, normalize_from, normalize_fields,
  message_from_pair, messages, flatten,
}

-- An entry of a stream, and what a client of each mode makes of it.
pub record Entry : Type 0 where
  pub id : Text
  pub fields : List (Text × Text)

abbrev pub byte_pairs : List (Text × Text) → Pairs
byte_pairs [] = []
byte_pairs ((k, v) ∷ fs) = (bytes (utf8 k), bytes (utf8 v)) ∷ byte_pairs fs

abbrev pub text_pairs : List (Text × Text) → Pairs
text_pairs [] = []
text_pairs ((k, v) ∷ fs) = (text k, text v) ∷ text_pairs fs

abbrev pub byte_items : List Entry → List Item
byte_items [] = []
byte_items (e ∷ es) =
    record { msg_id = bytes (utf8 e.id); raw_fields = byte_pairs e.fields } ∷ byte_items es

abbrev pub text_items : List Entry → List Item
text_items [] = []
text_items (e ∷ es) =
    record { msg_id = text e.id; raw_fields = text_pairs e.fields } ∷ text_items es

abbrev pub byte_response : List (Text × List Entry) → List (Text × List Item)
byte_response [] = []
byte_response ((s, es) ∷ rs) = (s, byte_items es) ∷ byte_response rs

abbrev pub text_response : List (Text × List Entry) → List (Text × List Item)
text_response [] = []
text_response ((s, es) ∷ rs) = (s, text_items es) ∷ text_response rs

-- The dict of an entry: of two fields with one name the later counts.
abbrev pub field_dict : Dict Text Bytes → List (Text × Text) → Dict Text Bytes
field_dict d [] = d
field_dict d ((k, v) ∷ fs) = field_dict (insert k (utf8 v) d) fs

abbrev pub messages_of : List Entry → List StreamMessage
messages_of [] = []
messages_of (e ∷ es) = record { id = e.id; fields = field_dict [] e.fields } ∷ messages_of es

abbrev pub all_messages : List (Text × List Entry) → List StreamMessage
all_messages [] = []
all_messages ((s, es) ∷ rs) = messages_of es ++ all_messages rs

module _ (decode : Bytes → Option Text) (decodes : (s : Text) → decode (utf8 s) ≡ some s) where
  normalize-bytes :
      (d : Dict Text Bytes) (fs : List (Text × Text))
      → normalize_from decode d (byte_pairs fs) ≡ some (field_dict d fs)
  unfolding normalize_from coerce_id field_value
  normalize-bytes d [] = refl
  normalize-bytes d ((k, v) ∷ fs) =
      rw (decodes k, normalize_from) (normalize-bytes (insert k (utf8 v) d) fs)

  normalize-text :
      (d : Dict Text Bytes) (fs : List (Text × Text))
      → normalize_from decode d (text_pairs fs) ≡ some (field_dict d fs)
  unfolding normalize_from coerce_id field_value
  normalize-text d [] = refl
  normalize-text d ((k, v) ∷ fs) = normalize-text (insert k (utf8 v) d) fs

  messages-bytes : (es : List Entry) → messages decode (byte_items es) ≡ some (messages_of es)
  unfolding messages message_from_pair normalize_fields coerce_id
  messages-bytes [] = refl
  messages-bytes (e ∷ es) =
      ground (arith, decodes e.id, normalize-bytes [] e.fields, messages-bytes es)

  messages-text : (es : List Entry) → messages decode (text_items es) ≡ some (messages_of es)
  unfolding messages message_from_pair normalize_fields coerce_id
  messages-text [] = refl
  messages-text (e ∷ es) = ground (arith, normalize-text [] e.fields, messages-text es)

  -- Suppose that decoding undoes the encoding of UTF-8. Then the messages are the same whether the
  -- client hands over bytes or text: each entry in its order, across the streams of the response,
  -- with its id as text and its fields as a dict from text to bytes. No entry is dropped, and nothing
  -- raises.
  pub flatten_modes :
      (rs : List (Text × List Entry))
      → (flatten decode (byte_response rs) ≡ some (all_messages rs))
        × (flatten decode (text_response rs) ≡ some (all_messages rs))
  unfolding flatten
  flatten_modes [] = (refl, refl)
  flatten_modes ((s, es) ∷ rs) =
      ground (arith, messages-bytes es, messages-text es, flatten_modes rs)

-- ===== src/Valkey/Tests.antt =====
-- Witnesses and tests for the streams.
use omkit_python.Prelude.{
  ℕ, zero, suc, ◌+◌, ◌-◌, ◌*◌, ◌++◌, ◌≡◌, refl, true, false, Option, none, some, List, [], ◌∷◌,
  if◌then◌else◌, ltb, arith,
}
use omkit_python.Prelude.Text.{Text, Bytes, codes, text_beq, utf8, utf8_char}
use omkit_python.Prelude.Dict.{insert}
use omkit_python.Valkey.{
  text, Client, nothing, StreamConsumer, coerce_id, flatten, ensure_group, claim_stale,
}
use omkit_python.Valkey.Modes.{Entry, byte_response, text_response, all_messages, flatten_modes}

-- A client that has no stale entries, and a group that is there already.
abbrev client : Client ℕ
client = record {
  xadd = λ s fs w. (some (text (codes "1-0")), w);
  xgroup_create = λ s g w. (some (codes "BUSYGROUP Consumer Group name already exists"), w);
  xreadgroup = λ g c s n b w. (some [], w);
  xack = λ s g i w. (true, w);
  xautoclaim = λ s g c i n w. (some nothing, w);
}

abbrev consumer : StreamConsumer
consumer = record {
  stream = codes "s";
  group = codes "g";
  consumer = codes "c";
  block_ms = 5000;
  count = 100;
}

ensure_group-busy : ensure_group (λ b. some b) client consumer 3 ≡ (true, 3)
unfolding ensure_group
ensure_group-busy = refl

ensure_group-raises :
    ensure_group
      (λ b. some b)
      (record client { xgroup_create = λ s g w. (some (codes "NOAUTH"), w) })
      consumer
      3
    ≡ (false, 3)
unfolding ensure_group
ensure_group-raises = refl

claim_stale-nothing : claim_stale (λ b. some b) client consumer 60000 3 ≡ (some [], 3)
unfolding claim_stale
claim_stale-nothing = refl

-- Texts of the test are at most 127, where the decoding is the identity.
abbrev entry : Entry
entry = record {
  id = codes "1-0";
  fields = (codes "payload", codes "1") ∷ (codes "payload", codes "2") ∷ [];
}

flatten-entry :
    flatten (λ b. some b) (byte_response ((codes "s", entry ∷ []) ∷ []))
    ≡ some (record { id = codes "1-0"; fields = (codes "payload", codes "2") ∷ [] } ∷ [])
unfolding flatten coerce_id insert text_beq utf8
flatten-entry = refl

push : ℕ → Option Text → Option Text
push c none = none
push c (some t) = some (c ∷ t)

-- A decoder for every number that `utf8` encodes: the number so far, and how many bytes of it are
-- left.
decode_from : ℕ → ℕ → Bytes → Option Text
unfolding push
decode_from k zero [] = some []
decode_from k (suc n) [] = none
decode_from k zero (a ∷ s) =
    let one = decode_from 0 0 s in
    let two = decode_from (a - 192) 1 s in
    let three = decode_from (a - 224) 2 s in
    let four = decode_from (a - 240) 3 s in
    if ltb a 128 then push a one else if ltb a 224 then two else if ltb a 240 then three else four
decode_from k (suc zero) (a ∷ s) = push (k * 64 + (a - 128)) (decode_from 0 0 s)
decode_from k (suc (suc n)) (a ∷ s) = decode_from (k * 64 + (a - 128)) (suc n) s

decode-utf8_char :
    (c : ℕ) (s : Bytes) → decode_from 0 0 (utf8_char c ++ s) ≡ push c (decode_from 0 0 s)
unfolding decode_from utf8_char
decode-utf8_char c s = ground arith

decode-utf8 : (s : Text) → decode_from 0 0 (utf8 s) ≡ some s
unfolding utf8 push decode_from
decode-utf8 [] = refl
decode-utf8 (c ∷ s) = rw (decode-utf8_char c (utf8 s), decode-utf8 s) refl

abbrev response : List (Text × List Entry)
response = (codes "s", entry ∷ []) ∷ []

flatten_modes_example :
    (flatten (decode_from 0 0) (byte_response response) ≡ some (all_messages response))
    × (flatten (decode_from 0 0) (text_response response) ≡ some (all_messages response))
flatten_modes_example = flatten_modes (decode_from 0 0) decode-utf8 response

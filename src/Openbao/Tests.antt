-- ===== src/Openbao/Tests.antt =====
-- Witnesses and tests for the OpenBao client.
use omkit_python.Prelude.{
  ℕ, zero, suc, ◌+◌, ◌≡◌, refl, Option, none, some, List, [], ◌∷◌, if◌then◌else◌, arith, length,
  ◌==◌, nat_eq, drop,
}
use omkit_python.Prelude.Text.{Text, Bytes, codes, text_eq, text_beq, starts_with}
use omkit_python.Prelude.Int.{pos}
use omkit_python.Prelude.Exceptions.{raise}
use omkit_python.Json.{Value, str, int, obj, Fields, end, field, get_field}
use omkit_python.Openbao.{
  unicode_error, Response, Request, Client, Setup, State, ascii, derived_context, context_inner,
  get, get_in, int_value,
}
use omkit_python.Openbao.Session.{read, login_fields, do_request}
use omkit_python.Openbao.Transit.{unwrap_dek}
use omkit_python.Openbao.Recovery.{Vault, Answered, do_request_recovers}
use omkit_python.Openbao.RoundTrip.{Transit}
use omkit_python.Openbao.Requests.{Sent, do_request-Sent}

-- A server that accepts one token, and keeps the requests.
record Server : Type 0 where
  current : ℕ
  sent : List Request

abbrev answer : Bytes → Option Response
answer content = some (record { status = 200; content = content })

-- The field that is sent first, under the name that the path asks for.
reply : Text → Option Fields → Bytes
reply path (some (field k (str s) fs)) =
    (if starts_with (codes "/v1/transit/encrypt/") path then b'e' else b'd') ∷ s
reply path body = b'd' ∷ []

serve : Request → Server → Option Response
unfolding reply
serve q w = elim q.token [
  | none ↦ answer (b'l' ∷ w.current ∷ [])
  | some t ↦
      if t == (w.current ∷ [])
      then answer (reply q.path q.body)
      else some (record { status = 403; content = [] })
]

abbrev client : Client Server
client = record {
  request = λ q w. (serve q w, record w { sent = q ∷ w.sent });
  monotonic = λ w. length w.sent;
}

-- Base64 is unary here.
encode : Bytes → Text
encode [] = []
encode (zero ∷ bs) = b'b' ∷ encode bs
encode (suc n ∷ bs) = b'a' ∷ encode (n ∷ bs)

decode_from : ℕ → Text → Option Bytes
decode_from n [] = some []
decode_from n (c ∷ s) =
    let same = decode_from (suc n) s in
    let more = decode_from 0 s in
    if c == b'a' then same else elim more [ none ↦ none | some bs ↦ some (n ∷ bs) ]

decode-encode : (k : ℕ) (n : ℕ) (bs : Bytes) → decode_from k (encode (n ∷ bs)) ≡ some ((k + n) ∷ bs)
unfolding encode decode_from
decode-encode k zero [] = ground arith
decode-encode k zero (m ∷ bs) = ground (arith, decode-encode 0 m bs)
decode-encode k (suc n) bs = ground (arith, decode-encode (suc k) n bs)

-- `json.loads` on the three kinds of content.
loads : Bytes → Option Value
loads (c ∷ s) =
    if c == b'l'
    then some (obj (field (codes "auth") (obj (field (codes "client_token") (str s) end)) end))
    else if c == b'e'
    then some (
        obj (
          field (codes "data")
            (obj (
              field (codes "ciphertext") (str (b'v' ∷ s))
                (field (codes "key_version") (int (pos 3)) end)))
            end))
    else some
        (obj (field (codes "data") (obj (field (codes "plaintext") (str (drop 1 s)) end)) end))
loads [] = none

abbrev setup : Setup
setup = record {
  role_id = codes "role";
  secret_id = codes "secret";
  key_name = codes "omur-user-content";
  base64 = record { encode = encode; decode = decode_from 0 };
  loads = loads;
  int_of = λ s. none;
}

vault : Vault client setup
unfolding serve read loads login_fields get_in get int_value text_beq get_field
vault = record {
  accepts = λ w t. t == (w.current ∷ []);
  rejects =
      λ verb path body t w h. (record { status = 403; content = [] }, ground (arith, h), refl);
  logs_in = λ w. (
    record { status = 200; content = b'l' ∷ w.current ∷ [] },
    obj (field (codes "auth") (obj (field (codes "client_token") (str (w.current ∷ [])) end)) end),
    w.current ∷ [],
    pos 0,
    refl,
    refl,
    refl,
    refl,
    ground arith,
  );
}

abbrev sealed : Text → Value
sealed s = obj (
    field (codes "data")
      (obj (
        field (codes "ciphertext") (str (b'v' ∷ s))
          (field (codes "key_version") (int (pos 3)) end)))
      end)

abbrev opened : Text → Value
opened s = obj (field (codes "data") (obj (field (codes "plaintext") (str s) end)) end)

-- The client has the token 7, and the server accepts the token 9 only.
abbrev stale : State Server
stale = record {
  token = some (str (7 ∷ []));
  token_expiry = 100;
  world = record { current = 9; sent = [] };
}

abbrev fresh : State Server
fresh = record { token = none; token_expiry = 0; world = record { current = 4; sent = [] } }

do_request_recovers_example :
    Answered client setup vault
      (codes "GET")
      (codes "/v1/transit/keys/k")
      none
      (do_request client setup (codes "GET") (codes "/v1/transit/keys/k") none stale)
do_request_recovers_example =
    do_request_recovers client setup vault (codes "GET") (codes "/v1/transit/keys/k") none stale
      refl

do_request-Sent-tested :
    Sent client setup
      (λ w. w.sent)
      (λ q w. refl)
      4
      stale
      (do_request client setup (codes "GET") (codes "/v1/transit/keys/k") none stale)
do_request-Sent-tested =
    do_request-Sent client setup (λ w. w.sent) (λ q w. refl) (codes "GET")
      (codes "/v1/transit/keys/k") none stale

-- A text that is not ASCII is no ciphertext, and nothing is sent.
unwrap_dek-not_ascii :
    unwrap_dek client setup (codes "u") (codes "p") (200 ∷ []) [] fresh
    ≡ (raise unicode_error, fresh)
unfolding unwrap_dek ascii
unwrap_dek-not_ascii = refl

-- With a colon in the user's id, two users share the context.
derived_context-collision :
    derived_context setup.base64 (codes "a:b") (codes "c") []
    ≡ derived_context setup.base64 (codes "a") (codes "b:c") []
unfolding derived_context context_inner
derived_context-collision = refl

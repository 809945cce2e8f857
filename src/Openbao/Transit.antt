-- ===== src/Openbao/Transit.antt =====
-- omkit/kms/openbao.py: the operations of the KMS protocol, over authenticated requests.
use omkit_python.Prelude.{Option, none, some, ◌++◌, if◌then◌else◌}
use omkit_python.Prelude.Text.{Text, Bytes, codes, is_empty}
use omkit_python.Prelude.Exceptions.{Result, ok, raise}
use omkit_python.Json.{Value, str, obj, Fields, end, field, truthy}
use omkit_python.Openbao.{
  Error, unavailable, attribute_error, type_error, Client, Setup, Call, ◌>>=◌, give, get_in, ascii,
  version_text, derived_context,
}
use omkit_python.Openbao.Session.{do_request}

module _ {W : Type 0} (c : Client W) (u : Setup) where
  -- `x or ""` for the field of `data`, which has to be a text that is not empty; another truthy value
  -- has no `encode`.
  unfoldable pub text_field : Option Value → Result Error Text
  text_field (some (str s)) = if is_empty s then raise (unavailable 0) else ok s
  text_field (some v) = if truthy v then raise attribute_error else raise (unavailable 0)
  text_field none = raise (unavailable 0)

  abbrev pub encrypt_path : Text → Text
  encrypt_path key = codes "/v1/transit/encrypt/" ++ key

  abbrev pub decrypt_path : Text → Text
  decrypt_path key = codes "/v1/transit/decrypt/" ++ key

  abbrev pub encrypt_body : Bytes → Text → Fields
  encrypt_body plaintext context =
      field (codes "plaintext") (str (u.base64.encode plaintext))
        (field (codes "context") (str context) end)

  abbrev pub decrypt_body : Text → Text → Fields
  decrypt_body ciphertext context =
      field (codes "ciphertext") (str ciphertext) (field (codes "context") (str context) end)

  abbrev pub data_field : Text → Value → Result Error (Option Value)
  data_field k v = get_in (codes "data") k v

  unfoldable pub wrap : Text → Bytes → Bytes → Call W Bytes
  unfolding do_request get_in text_field ascii
  wrap key_id plaintext aad = do
    resp ←
        do_request c u (codes "POST") (encrypt_path key_id)
          (some (encrypt_body plaintext (u.base64.encode aad)))
    data_ct ← give (data_field (codes "ciphertext") resp)
    ct ← give (text_field data_ct)
    give (ascii ct)

  -- `b64decode` of the field, which takes texts.
  unfoldable pub plaintext_field : Option Value → Result Error Bytes
  plaintext_field (some (str s)) =
      if is_empty s
      then raise (unavailable 0)
      else elim (u.base64.decode s) [ none ↦ raise (unavailable 0) | some p ↦ ok p ]
  plaintext_field (some v) = if truthy v then raise type_error else raise (unavailable 0)
  plaintext_field none = raise (unavailable 0)

  -- What `unwrap` and `unwrap_dek` share.
  unfoldable pub decrypt : Text → Bytes → Text → Call W Bytes
  unfolding do_request get_in plaintext_field ascii
  decrypt key blob context = do
    ciphertext ← give (ascii blob)
    resp ← do_request c u (codes "POST") (decrypt_path key) (some (decrypt_body ciphertext context))
    data_pt ← give (data_field (codes "plaintext") resp)
    give (plaintext_field data_pt)

  unfoldable pub unwrap : Text → Bytes → Bytes → Call W Bytes
  unfolding decrypt
  unwrap key_id blob aad = decrypt key_id blob (u.base64.encode aad)

  unfoldable pub current_version : Text → Call W Text
  unfolding do_request get_in version_text
  current_version key_id = do
    resp ← do_request c u (codes "GET") (codes "/v1/transit/keys/" ++ key_id) none
    latest ← give (data_field (codes "latest_version") resp)
    give (elim (version_text latest) [ none ↦ raise (unavailable 0) | some v ↦ ok v ])

  -- The test of `wrap_dek` on its two fields, and `ct.encode("ascii")`.
  unfoldable pub dek_fields : Option Value → Option Value → Result Error (Bytes × Text)
  unfolding version_text text_field ascii
  dek_fields ct kv = elim (version_text kv) [
    | none ↦ raise (unavailable 0)
    | some v ↦ elim (text_field ct) [
      | raise x ↦ raise x
      | ok s ↦ elim (ascii s) [ raise x ↦ raise x | ok b ↦ ok (b, v) ]
    ]
  ]

  unfoldable pub wrap_dek : Text → Text → Bytes → Bytes → Call W (Bytes × Text)
  unfolding do_request derived_context get_in dek_fields
  wrap_dek user_id purpose plain_dek aad = do
    resp ←
        do_request c u (codes "POST") (encrypt_path u.key_name)
          (some (encrypt_body plain_dek (derived_context u.base64 user_id purpose aad)))
    ct ← give (data_field (codes "ciphertext") resp)
    kv ← give (data_field (codes "key_version") resp)
    give (dek_fields ct kv)

  unfoldable pub unwrap_dek : Text → Text → Bytes → Bytes → Call W Bytes
  unfolding decrypt derived_context
  unwrap_dek user_id purpose wrapped aad =
      decrypt u.key_name wrapped (derived_context u.base64 user_id purpose aad)

  -- `now` is the time of the call as `strftime` writes it.
  unfoldable pub delete_user_keys : (now : Text) → Text → Call W (Unit {0})
  unfolding do_request
  delete_user_keys now user_id = do
    _ ← do_request c u (codes "POST") (codes "/v1/secret/data/omur/shredded/" ++ user_id) (
        some (
          field (codes "data")
            (obj (
              field (codes "shredded_at") (str now)
                (field (codes "reason") (str (codes "user_erasure_request")) end)))
            end))
    give (ok tt)

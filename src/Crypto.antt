-- ===== src/Crypto.antt =====
-- omkit/crypto/aes_gcm.py, omkit/encryption.py, omkit/kms/localdev.py and omkit/crypto/kuser.py: the
-- envelopes around AES-256-GCM. The cipher, HMAC-SHA-256, base64 and the decoding of UTF-8 are
-- parameters; random bytes are arguments.
pub mod Envelopes
pub mod Binding
pub mod Sample
mod Tests
use omkit_python.Prelude.{
  ℕ, ◌+◌, ◌-◌, Bool, true, false, Option, none, some, List, [], ◌∷◌, ◌++◌, if◌then◌else◌, eqb, ltb,
  leb, length, take, drop, ◌==◌,
}
use omkit_python.Prelude.Text.{Text, Bytes, codes, text_eq, utf8, is_empty}
use omkit_python.Prelude.Exceptions.{Result, ok, raise, ◌>>=◌, ◌>>◌}

-- The exceptions of the modules; `kms_auth` is KMSAuthError, `bad_text` a UnicodeDecodeError.
pub data Error : Type 0 where
  invalid_key invalid_envelope kms_auth bad_master bad_text selftest : Error

-- `AESGCM(key).encrypt` and `decrypt`, whose `none` is InvalidTag.
pub record Aead : Type 0 where
  pub encrypt : (key nonce plaintext : Bytes) → Option Bytes → Bytes
  pub decrypt : (key nonce ciphertext : Bytes) → Option Bytes → Option Bytes

abbrev pub nonce_size : ℕ
nonce_size = 12

abbrev pub tag_size : ℕ
tag_size = 16

abbrev pub kek_size : ℕ
kek_size = 32

-- `aad if aad else None`
unfoldable pub or_none : Bytes → Option Bytes
or_none aad = if is_empty aad then none else some aad

-- `_validate_kek`
unfoldable pub validate_kek : Bytes → Result Error (Unit {0})
validate_kek kek = if eqb (length kek) kek_size then ok tt else raise invalid_key

module _ (aead : Aead) where
  unfoldable pub wrap_with_key : (nonce kek plaintext aad : Bytes) → Result Error Bytes
  unfolding validate_kek or_none
  wrap_with_key nonce kek plaintext aad = do
    validate_kek kek
    ok (nonce ++ aead.encrypt kek nonce plaintext (or_none aad))

  -- `except InvalidTag`
  authenticated : Option Bytes → Result Error Bytes
  authenticated none = raise invalid_envelope
  authenticated (some p) = ok p

  unfoldable pub unwrap_with_key : (kek blob aad : Bytes) → Result Error Bytes
  unfolding validate_kek or_none authenticated
  unwrap_with_key kek blob aad = do
    validate_kek kek
    if ltb (length blob) nonce_size
        then raise invalid_envelope
        else authenticated
            (aead.decrypt kek (take nonce_size blob) (drop nonce_size blob) (or_none aad))

  -- `wrap` and `unwrap` of aes_gcm.py, by a resolver, which may raise.
  unfoldable pub wrap :
      (Text → Result Error Bytes)
      → (nonce : Bytes) → Text
      → (plaintext aad : Bytes) → Result Error Bytes
  unfolding wrap_with_key
  wrap resolve nonce key_id plaintext aad = do
    kek ← resolve key_id
    wrap_with_key nonce kek plaintext aad

  unfoldable pub unwrap :
      (Text → Result Error Bytes) → Option Text → (envelope aad : Bytes) → Result Error Bytes
  unfolding unwrap_with_key
  unwrap resolve key_id envelope aad = do
    kek ← resolve (elim key_id [ none ↦ [] | some k ↦ k ])
    unwrap_with_key kek envelope aad

-- `_bind_aad`
unfoldable pub bind_aad : Text → Text → Bytes → Bytes
bind_aad purpose user_id aad = utf8 (purpose ++ (b'|' ∷ (user_id ++ (b'|' ∷ [])))) ++ aad

-- `LocalDevKMS`: a master of 32 bytes at least is cut to 32.
unfoldable pub master_of : Bytes → Result Error Bytes
master_of master = if ltb (length master) 32 then raise bad_master else ok (take 32 master)

module _ (hmac : (key message : Bytes) → Bytes) (master : Bytes) where
  unfoldable pub static_key : Text → Bytes
  static_key key_id = hmac master (codes "omur-kms-derive-v1:" ++ utf8 key_id)

  -- The label of a user's key.
  unfoldable pub user_label : Text → Text → Text
  user_label user_id purpose = codes "user-" ++ (user_id ++ (b'-' ∷ purpose))

  unfoldable pub user_key : Text → Text → Bytes
  unfolding user_label
  user_key user_id purpose = hmac master (utf8 (user_label user_id purpose))

  module _ (aead : Aead) where
    unfoldable pub localdev_wrap :
        (nonce : Bytes) → Text → (plaintext aad : Bytes) → Result Error Bytes
    unfolding static_key wrap_with_key
    localdev_wrap nonce key_id = wrap_with_key aead nonce (static_key key_id)

    unfoldable pub localdev_unwrap : Text → (blob aad : Bytes) → Result Error Bytes
    unfolding static_key unwrap_with_key
    localdev_unwrap key_id = unwrap_with_key aead (static_key key_id)

    -- The wrapped key, beside which `wrap_dek` returns the constant version "localdev-v1".
    unfoldable pub wrap_dek :
        (nonce : Bytes) → Text → Text → (plain_dek aad : Bytes) → Result Error (Bytes × Text)
    unfolding user_key bind_aad wrap_with_key
    wrap_dek nonce user_id purpose plain_dek aad = do
      wrapped ←
          wrap_with_key aead nonce (user_key user_id purpose) plain_dek
            (bind_aad purpose user_id aad)
      ok (wrapped, codes "localdev-v1")

    -- Every exception turns into KMSAuthError.
    as_auth : Result Error Bytes → Result Error Bytes
    as_auth (ok p) = ok p
    as_auth (raise x) = raise kms_auth

    unfoldable pub unwrap_dek : Text → Text → (wrapped aad : Bytes) → Result Error Bytes
    unfolding user_key bind_aad unwrap_with_key as_auth
    unwrap_dek user_id purpose wrapped aad =
        as_auth
          (unwrap_with_key aead (user_key user_id purpose) wrapped (bind_aad purpose user_id aad))

-- `base64.urlsafe_b64encode` and `urlsafe_b64decode` on text that is encoded as ASCII, and the
-- decoding of UTF-8; `none` is a raise.
pub record Codecs : Type 0 where
  pub b64encode : Bytes → Text
  pub b64decode : Text → Option Bytes
  pub utf8_decode : Bytes → Option Text

abbrev or_raise : {A : Type 0} → Error → Option A → Result Error A
or_raise x none = raise x
or_raise x (some a) = ok a

abbrev pub version : Bytes
version = codes "v1"

abbrev pub encryption_aad : Bytes
encryption_aad = codes "omkit.encryption.v1"

module _ (c : Codecs) (aead : Aead) where
  unfoldable pub decode_key : Text → Result Error Bytes
  decode_key key = do
    raw ← or_raise invalid_key (c.b64decode key)
    if eqb (length raw) 32 then ok raw else raise invalid_key

  unfoldable pub generate_key : (random : Bytes) → Text
  generate_key random = c.b64encode random

  unfoldable pub encrypt_value : (nonce : Bytes) → Text → Text → Result Error Text
  unfolding decode_key wrap_with_key
  encrypt_value nonce plaintext key = do
    kek ← decode_key key
    blob ← wrap_with_key aead nonce kek (utf8 plaintext) encryption_aad
    ok (c.b64encode (version ++ blob))

  -- The tests on the decoded token: its length and its version.
  unfoldable pub blob_of : Bytes → Result Error Bytes
  blob_of raw =
      if ltb (length raw) (length version + 12 + 16)
      then raise invalid_envelope
      else if take (length version) raw == version
      then ok (drop (length version) raw)
      else raise invalid_envelope

  unfoldable pub decrypt_value : Text → Text → Result Error Text
  unfolding decode_key blob_of unwrap_with_key
  decrypt_value ciphertext key = do
    kek ← decode_key key
    raw ← or_raise invalid_envelope (c.b64decode ciphertext)
    blob ← blob_of raw
    plain ← unwrap_with_key aead kek blob encryption_aad
    or_raise bad_text (c.utf8_decode plain)

-- `mask_secret`; an empty value is falsy.
unfoldable pub mask_secret : Option Text → Option Text
mask_secret none = none
mask_secret (some v) =
    let n = length v in
    if is_empty v
    then none
    else if leb 10 n
    then some (take 4 v ++ (codes "****" ++ drop (n - 4) v))
    else if leb 4 n
    then some (take 2 v ++ (codes "****" ++ drop (n - 2) v))
    else some (codes "****")

-- `KUser`: the key, which `zero` overwrites.
unfoldable pub new_kuser : Bytes → Result Error Bytes
new_kuser raw = if eqb (length raw) 32 then ok raw else raise invalid_key

unfoldable pub zero_kuser : Bytes → Bytes
zero_kuser [] = []
zero_kuser (b ∷ bs) = 0 ∷ zero_kuser bs

abbrev pub self_test_payload : Bytes
self_test_payload = codes "OMUR-SELFTEST-V1"

abbrev pub self_test_aad : Bytes
self_test_aad = codes "omur-selftest"

module _ (aead : Aead) where
  unfoldable pub new_self_test : (nonce key : Bytes) → Bytes × Bytes
  new_self_test nonce key = (nonce, aead.encrypt key nonce self_test_payload (some self_test_aad))

  unfoldable pub verify_self_test : (key nonce ciphertext : Bytes) → Result Error (Unit {0})
  verify_self_test key nonce ciphertext =
      elim (aead.decrypt key nonce ciphertext (some self_test_aad)) [
        | none ↦ raise selftest
        | some p ↦ if p == self_test_payload then ok tt else raise selftest
      ]

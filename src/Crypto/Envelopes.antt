-- ===== src/Crypto/Envelopes.antt =====
-- omkit/crypto/aes_gcm.py, omkit/encryption.py and omkit/kms/localdev.py: what is wrapped unwraps to
-- itself, and nothing else unwraps.
use omkit_python.Prelude.{
  ◌+◌, ◌≤◌, ◌≡◌, refl, inl, inr, Option, some, ◌++◌, arith, length, take, drop, eqb, ltb,
  Option-cases, Bool-cases, take-append, drop-append, length-append, ==-refl,
}
use omkit_python.Prelude.Text.{Text, Bytes, text_eq, utf8}
use omkit_python.Prelude.Exceptions.{ok, ◌>>=◌}
use omkit_python.Crypto.{
  Aead, nonce_size, kek_size, or_none, validate_kek, wrap_with_key, unwrap_with_key, authenticated,
  bind_aad, user_key, user_label, as_auth, wrap_dek, unwrap_dek, Codecs, version, encryption_aad,
  decode_key, encrypt_value, blob_of, decrypt_value,
}

-- What AES-GCM is documented to do: decryption undoes encryption under the same key, nonce and
-- associated data, accepts no other ciphertext, and a ciphertext has a tag of 16 bytes.
pub record IsAead (a : Aead) : Type 0 where
  pub opens :
      (k n p : Bytes) (aad : Option Bytes) → a.decrypt k n (a.encrypt k n p aad) aad ≡ some p
  pub sealed :
      (k n c p : Bytes) (aad : Option Bytes)
      → a.decrypt k n c aad ≡ some p
      → c ≡ a.encrypt k n p aad
  pub tag : (k n p : Bytes) (aad : Option Bytes) → length (a.encrypt k n p aad) ≡ length p + 16

module _ (a : Aead) (v : IsAead a) where
  abbrev enveloped : (n k p aad : Bytes) → Bytes
  enveloped n k p aad = n ++ a.encrypt k n p (or_none aad)

  wrap_with_key-enveloped :
      (n k p aad : Bytes)
      → length k ≡ kek_size
      → wrap_with_key a n k p aad ≡ ok (enveloped n k p aad)
  unfolding wrap_with_key validate_kek
  wrap_with_key-enveloped n k p aad hk = ground (arith, hk)

  unwrap_with_key-enveloped :
      (n k p aad : Bytes)
      → length n ≡ nonce_size
      → length k ≡ kek_size
      → unwrap_with_key a k (enveloped n k p aad) aad ≡ ok p
  unfolding unwrap_with_key validate_kek authenticated
  unwrap_with_key-enveloped n k p aad hn hk =
      let c = a.encrypt k n p (or_none aad) in
      ground (
        arith,
        hn,
        hk,
        take-append n c 12 hn,
        drop-append n c 12 hn,
        length-append n c,
        v.opens k n p (or_none aad),
      )

  -- Whatever unwraps was wrapped with the same key and associated data.
  pub unwrap_with_key_sound :
      (k b p aad : Bytes)
      → unwrap_with_key a k b aad ≡ ok p
      → (drop nonce_size b ≡ a.encrypt k (take nonce_size b) p (or_none aad))
        × (12 ≤ length b)
        × (length k ≡ kek_size)
  unfolding unwrap_with_key validate_kek authenticated
  unwrap_with_key_sound k b p aad h = elim (Bool-cases (eqb (length k) 32)) [
    | inr bad ↦ absurd (ground (arith, h, bad))
    | inl good ↦ elim (Bool-cases (ltb (length b) 12)) [
      | inl short ↦ absurd (ground (arith, h, good, short))
      | inr long ↦ elim (Option-cases (a.decrypt k (take 12 b) (drop 12 b) (or_none aad))) [
        | inl fails ↦ absurd (ground (arith, h, good, long, fails))
        | inr (q, passes) ↦
            ground
              (arith, h, good, long, passes, v.sealed k (take 12 b) (drop 12 b) p (or_none aad))
      ]
    ]
  ]

  -- With HMAC keys of 32 bytes, `unwrap_dek` gives back the key that `wrap_dek` wrapped for the same
  -- user, purpose and associated data.
  pub unwrap_dek-wrap_dek :
      (hmac : Bytes → Bytes → Bytes) (master n : Bytes) (user purpose : Text) (dek aad : Bytes)
      → ((k m : Bytes) → length (hmac k m) ≡ 32)
      → length n ≡ nonce_size
      → (wrap_dek hmac master a n user purpose dek aad
          >>= (λ w. unwrap_dek hmac master a user purpose w.0 aad))
        ≡ ok dek
  unfolding wrap_dek unwrap_dek as_auth
  unwrap_dek-wrap_dek hmac master n user purpose dek aad h hn =
      let k = user_key hmac master user purpose in
      let size : length k ≡ kek_size = h master (utf8 (user_label hmac master user purpose)) in
      let bound = bind_aad purpose user aad in
      rw (wrap_with_key-enveloped n k dek bound size)
        (ground (arith, unwrap_with_key-enveloped n k dek bound hn size))

  module _ (c : Codecs) (b64 : (b : Bytes) → c.b64decode (c.b64encode b) ≡ some b) where
    blob_of-version : (b : Bytes) → 28 ≤ length b → blob_of c a (version ++ b) ≡ ok b
    unfolding blob_of
    blob_of-version b h = ground (
      arith,
      h,
      take-append version b 2 refl,
      drop-append version b 2 refl,
      length-append version b,
      ==-refl version,
    )

    -- If base64 and UTF-8 decode what they encoded and the key decodes to 32 bytes, then
    -- `decrypt_value` gives back the text that `encrypt_value` made a token of.
    pub decrypt_value-encrypt_value :
        (n : Bytes) (s key : Text) (k : Bytes)
        → length n ≡ nonce_size
        → c.b64decode key ≡ some k
        → length k ≡ kek_size
        → c.utf8_decode (utf8 s) ≡ some s
        → (encrypt_value c a n s key >>= (λ t. decrypt_value c a t key)) ≡ ok s
    unfolding encrypt_value decrypt_value decode_key
    decrypt_value-encrypt_value n s key k hn e hk u =
        let blob = enveloped n k (utf8 s) encryption_aad in
        let long : 28 ≤ length blob = omega (
          arith,
          hn,
          length-append n (a.encrypt k n (utf8 s) (some encryption_aad)),
          v.tag k n (utf8 s) (some encryption_aad),
        ) in
        ground (
          arith,
          e,
          hk,
          u,
          wrap_with_key-enveloped n k (utf8 s) encryption_aad hk,
          b64 (version ++ blob),
          blob_of-version blob long,
          unwrap_with_key-enveloped n k (utf8 s) encryption_aad hn hk,
        )

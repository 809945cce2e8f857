-- ===== src/Crypto/Tests.antt =====
-- Witnesses and tests for the envelopes.
use omkit_python.Prelude.{◌≤◌, ◌≡◌, refl, some, [], ◌++◌, arith, length, take, drop}
use omkit_python.Prelude.Text.{Text, codes, text_eq, text_beq, utf8}
use omkit_python.Prelude.Exceptions.{ok, raise, ◌>>=◌}
use omkit_python.Crypto.{
  or_none, nonce_size, kek_size, wrap_with_key, unwrap_with_key, bind_aad, user_label, wrap_dek,
  unwrap_dek, encrypt_value, decrypt_value, mask_secret, invalid_envelope,
}
use omkit_python.Crypto.Envelopes.{
  unwrap_with_key_sound, unwrap_dek-wrap_dek, decrypt_value-encrypt_value,
}
use omkit_python.Crypto.Binding.{bind_aad_separates}
use omkit_python.Crypto.Sample.{
  plain_cipher, plain_cipher-IsAead, open_tag, nonce, key32, codecs, zeros,
}

abbrev secret : Text
secret = codes "abcd"

runs : Unit {0}
unfolding text_beq utf8 wrap_with_key unwrap_with_key encrypt_value decrypt_value open_tag
    mask_secret bind_aad user_label
runs = tt

unwrap_with_key-tested :
    (drop nonce_size (nonce ++ (zeros ++ secret))
      ≡ plain_cipher.encrypt key32
          (take nonce_size (nonce ++ (zeros ++ secret)))
          secret
          (or_none []))
    × (12 ≤ length (nonce ++ (zeros ++ secret)))
    × (length key32 ≡ kek_size)
unfolding runs
unwrap_with_key-tested =
    unwrap_with_key_sound plain_cipher plain_cipher-IsAead key32 (nonce ++ (zeros ++ secret)) secret
      [] refl

unwrap_dek-wrap_dek-tested :
    (wrap_dek (λ k m. key32) key32 plain_cipher nonce (codes "u") (codes "content") secret []
      >>= (λ w. unwrap_dek (λ k m. key32) key32 plain_cipher (codes "u") (codes "content") w.0 []))
    ≡ ok secret
unwrap_dek-wrap_dek-tested =
    unwrap_dek-wrap_dek plain_cipher plain_cipher-IsAead (λ k m. key32) key32 nonce (codes "u")
      (codes "content") secret [] (λ k m. refl) refl

decrypt_value-encrypt_value-tested :
    (encrypt_value codecs plain_cipher nonce secret key32
      >>= (λ t. decrypt_value codecs plain_cipher t key32))
    ≡ ok secret
unfolding runs
decrypt_value-encrypt_value-tested =
    decrypt_value-encrypt_value plain_cipher plain_cipher-IsAead codecs (λ b. refl) nonce secret
      key32 key32 refl refl refl refl

decrypt_value-short : decrypt_value codecs plain_cipher secret key32 ≡ raise invalid_envelope
unfolding runs
decrypt_value-short = refl

bind_aad_separates-tested :
    (utf8 (codes "p") ≡ utf8 (codes "p"))
    × (utf8 (codes "u") ≡ utf8 (codes "u"))
    × (secret ≡ secret)
bind_aad_separates-tested =
    bind_aad_separates (codes "p") (codes "p") (codes "u") (codes "u") secret secret
      (omega arith, tt) (omega arith, tt) (omega arith, tt) (omega arith, tt) refl

-- With bars, two users share the key and the associated data.
collision :
    (user_label (λ k m. m) [] (codes "-|") [] ≡ user_label (λ k m. m) [] [] (codes "|-"))
    × (bind_aad [] (codes "-|") secret ≡ bind_aad (codes "|-") [] secret)
unfolding runs
collision = (refl, refl)

-- The mask of a secret of four characters shows all of them.
mask_secret-four : mask_secret (some secret) ≡ some (codes "ab****cd")
unfolding runs
mask_secret-four = refl

-- ===== src/Openbao/RoundTrip.antt =====
-- omkit/kms/openbao.py: what is wrapped can be unwrapped, whatever becomes of the tokens.
use omkit_python.Prelude.{◌≡◌, true, false, Option, some, ◌≤◌, length}
use omkit_python.Prelude.Text.{Text, Bytes, codes, is_empty}
use omkit_python.Prelude.Int.{ℤ}
use omkit_python.Prelude.Exceptions.{ok}
use omkit_python.Json.{Value, str, int}
use omkit_python.Openbao.{Response, Client, Setup, is_ascii}
use omkit_python.Openbao.Session.{read}
use omkit_python.Openbao.Transit.{
  encrypt_path, decrypt_path, encrypt_body, decrypt_body, data_field,
}
use omkit_python.Openbao.Recovery.{Vault, with_token}

module _ {W : Type 0} (c : Client W) (u : Setup) (vault : Vault c u) where
  -- What is assumed of the Transit engine, for plaintexts of up to 1000 characters in base64: to a
  -- token that it accepts it gives a ciphertext, in ASCII and not empty, that it opens with the same
  -- key and context again.
  pub record Transit : Type 0 where
    pub opens : (key context ciphertext : Text) → Option Text
    pub encrypts :
        (key context t : Text) (p : Bytes) (w : W)
        → vault.accepts w t ≡ true
        → length (u.base64.encode p) ≤ 1000
        → (r : Response) × (v : Value) × (ct : Text) × (n : ℤ) × ((c.request
              (with_token c u
                (codes "POST")
                (encrypt_path c u key)
                (some (encrypt_body c u p context))
                t)
              w).0
            ≡ some r)
          × (read c u r ≡ ok v)
          × (data_field c u (codes "ciphertext") v ≡ ok (some (str ct)))
          × (data_field c u (codes "key_version") v ≡ ok (some (int n)))
          × (is_empty ct ≡ false)
          × (is_ascii ct ≡ true)
          × (opens key context ct ≡ some (u.base64.encode p))
    pub decrypts :
        (key context ct p64 t : Text) (w : W)
        → vault.accepts w t ≡ true
        → length p64 ≤ 1000
        → opens key context ct ≡ some p64
        → (r : Response) × (v : Value) × ((c.request
              (with_token c u
                (codes "POST")
                (decrypt_path c u key)
                (some (decrypt_body c u ct context))
                t)
              w).0
            ≡ some r)
          × (read c u r ≡ ok v)
          × (data_field c u (codes "plaintext") v ≡ ok (some (str p64)))

-- ===== src/Crypto/Sample.antt =====
-- A cipher, keys and codecs for witnesses.
use omkit_python.Prelude.{
  ℕ, zero, suc, ◌≡◌, refl, ap, Option, none, some, [], ◌∷◌, ◌++◌, if◌then◌else◌, arith, take, drop,
  length-append, ==-refl, ◌==◌,
}
use omkit_python.Prelude.Text.{Bytes, text_eq, text_beq_iff}
use omkit_python.Crypto.{Aead, Codecs}
use omkit_python.Crypto.Envelopes.{IsAead}

-- A cipher that only puts a tag in front.
abbrev pub zeros : Bytes
zeros = 0 ∷ 0 ∷ 0 ∷ 0 ∷ 0 ∷ 0 ∷ 0 ∷ 0 ∷ 0 ∷ 0 ∷ 0 ∷ 0 ∷ 0 ∷ 0 ∷ 0 ∷ 0 ∷ []

unfoldable pub open_tag : Bytes → Option Bytes
open_tag c = if take 16 c == zeros then some (drop 16 c) else none

abbrev pub plain_cipher : Aead
plain_cipher = record { encrypt = λ k n p aad. zeros ++ p; decrypt = λ k n c aad. open_tag c }

take-drop : (n : ℕ) (c : Bytes) → take n c ++ drop n c ≡ c
take-drop zero c = refl
take-drop (suc n) [] = refl
take-drop (suc n) (b ∷ c) = ap (◌∷◌ b) (take-drop n c)

pub plain_cipher-IsAead : IsAead plain_cipher
unfolding open_tag
plain_cipher-IsAead = record {
  opens = λ k n p aad. ground (arith, ==-refl zeros);
  sealed = λ k n c p aad h. ground (arith, h, text_beq_iff (take 16 c) zeros, take-drop 16 c);
  tag = λ k n p aad. ground (arith, length-append zeros p);
}

abbrev pub nonce : Bytes
nonce = take 12 zeros

abbrev pub key32 : Bytes
key32 = zeros ++ zeros

abbrev pub codecs : Codecs
codecs = record { b64encode = λ b. b; b64decode = λ t. some t; utf8_decode = λ b. some b }

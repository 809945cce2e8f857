-- ===== src/Settings/Secrets.antt =====
-- omkit/settings.py: a secret is not in the cache, and `get_secret` decrypts it.
use omkit_python.Prelude.{
  ℕ, ◌≡◌, refl, inl, inr, Bool, true, false, Option, none, some, List, [], ◌∷◌, arith, All, length,
  Option-cases, Bool-cases, ltb,
}
use omkit_python.Prelude.Text.{Text, Bytes, utf8, text_eq, text_beq_iff}
use omkit_python.Prelude.Dict.{Dict, lookup, insert, lookup-insert}
use omkit_python.Prelude.Exceptions.{ok}
use omkit_python.Json.{Value, Column, text}
use omkit_python.Crypto.{Aead, Codecs, nonce_size, kek_size, encrypt_value, decrypt_value}
use omkit_python.Crypto.Envelopes.{IsAead, decrypt_value-encrypt_value}
use omkit_python.Settings.{
  Setting, Table, Manager, empty, get, later, newer, select_newer, insert_by_time, oldest_first,
  load_loop, load_from_pool, fire, callbacks, poll_loop, poll_once,
}
use omkit_python.Settings.Polling.{saved, parse}
use omkit_python.Settings.Live.{Setup, constructed, start, to_str, get_secret, poll_task}
use omkit_python.Settings.Started.{start-manager}

-- A row of the key, if it is one, is a secret.
abbrev Hides : Text → Text × Setting → Type 0
Hides k (j, s) = j ≡ k → s.is_secret ≡ true

abbrev pub IsSecretIn : Text → Table → Type 0
IsSecretIn k t = All (Hides k) t

abbrev pub IsSecretInAny : Text → Option Table → Type 0
IsSecretInAny k none = Unit
IsSecretInAny k (some t) = IsSecretIn k t

select_newer-IsSecretIn :
    (k : Text) (seen : Option ℕ) (t : Table) → IsSecretIn k t → IsSecretIn k (select_newer seen t)
unfolding select_newer
select_newer-IsSecretIn k seen [] h = tt
select_newer-IsSecretIn k seen ((j, s) ∷ t) (p, h) =
    let rest = select_newer-IsSecretIn k seen t h in
    elim (Bool-cases (newer seen s)) [
      | inl e ↦ rw (e, select_newer) (p, rest)
      | inr e ↦ rw (e, select_newer) rest
    ]

insert_by_time-IsSecretIn :
    (k : Text) (p : Text × Setting) (t : Table)
    → Hides k p
    → IsSecretIn k t
    → IsSecretIn k (insert_by_time p t)
unfolding insert_by_time
insert_by_time-IsSecretIn k p [] hp h = (hp, tt)
insert_by_time-IsSecretIn k p (q ∷ t) hp (hq, h) =
    elim (Bool-cases (ltb q.1.updated_at p.1.updated_at)) [
      | inl e ↦ rw (e, insert_by_time) (hq, insert_by_time-IsSecretIn k p t hp h)
      | inr e ↦ rw (e, insert_by_time) (hp, (hq, h))
    ]

oldest_first-IsSecretIn : (k : Text) (t : Table) → IsSecretIn k t → IsSecretIn k (oldest_first t)
unfolding oldest_first
oldest_first-IsSecretIn k [] h = tt
oldest_first-IsSecretIn k (p ∷ t) (hp, h) =
    insert_by_time-IsSecretIn k p (oldest_first t) hp (oldest_first-IsSecretIn k t h)

module _ (decode : Bytes → Option Text) (loads : Text → Option Value) where
  load_loop-hides :
      (k : Text) (l : Option ℕ) (t : Table) (m : Manager)
      → IsSecretIn k t
      → lookup k (load_loop decode loads l t m).1.cache ≡ lookup k m.cache
  unfolding load_loop
  load_loop-hides k l [] m h = refl
  load_loop-hides k l ((j, s) ∷ t) m (p, h) =
      let l' = later l s.updated_at in
      elim (Bool-cases s.is_secret) [
        | inl secret ↦
            rw (secret, load_loop)
              (load_loop-hides k l' t (record m { secret_keys = j ∷ m.secret_keys }) h)
        | inr shown ↦ elim (Option-cases (parse decode loads s)) [
          | inl bad ↦ rw (shown, load_loop, bad) refl
          | inr (v, good) ↦
              rw (shown, load_loop, good)
                (let rest = load_loop-hides k l' t (record m { cache = insert j v m.cache }) h in
                  ground (arith, rest, p, shown, text_beq_iff j k, lookup-insert j k v m.cache))
        ]
      ]

  load_from_pool-hides :
      (k : Text) (t : Option Table) (m : Manager)
      → IsSecretInAny k t
      → lookup k (load_from_pool decode loads t m).cache ≡ lookup k m.cache
  unfolding load_from_pool
  load_from_pool-hides k none m h = refl
  load_from_pool-hides k (some t) m h =
      let q = load_loop decode loads m.last_seen t m in
      let same = load_loop-hides k m.last_seen t m h in
      elim (Option-cases q.0) [
        | inl e ↦ rw (e, load_from_pool) same
        | inr (l, e) ↦ rw (e, load_from_pool) (ground (arith, same, saved l q.1))
      ]

  module _ {W : Type 0} (call : ℕ → Value → W → W) where
    poll_loop-hides :
        (k : Text) (l : Option ℕ) (t : Table) (m : Manager) (w : W)
        → IsSecretIn k t
        → lookup k (poll_loop decode loads call l t m w).1.cache ≡ lookup k m.cache
    unfolding poll_loop
    poll_loop-hides k l [] m w h = refl
    poll_loop-hides k l ((j, s) ∷ t) m w (p, h) =
        let l' = later l s.updated_at in
        elim (Bool-cases s.is_secret) [
          | inl secret ↦ rw (secret, poll_loop) (poll_loop-hides k l' t m w h)
          | inr shown ↦ elim (Option-cases (parse decode loads s)) [
            | inl bad ↦ rw (shown, poll_loop, bad) refl
            | inr (v, good) ↦
                rw (shown, poll_loop, good)
                  (let rest =
                      poll_loop-hides k l' t (record m { cache = insert j v m.cache })
                        (fire decode loads call (callbacks j m) v w) h in
                    ground (arith, rest, p, shown, text_beq_iff j k, lookup-insert j k v m.cache))
          ]
        ]

    poll_once-hides :
        (k : Text) (t : Option Table) (m : Manager) (w : W)
        → IsSecretInAny k t
        → lookup k (poll_once decode loads call t m w).0.cache ≡ lookup k m.cache
    unfolding poll_once
    poll_once-hides k none m w h = refl
    poll_once-hides k (some t) m w h =
        let rows = oldest_first (select_newer m.last_seen t) in
        let q = poll_loop decode loads call m.last_seen rows m w in
        let same = poll_loop-hides k m.last_seen rows m w (
          oldest_first-IsSecretIn k (select_newer m.last_seen t)
            (select_newer-IsSecretIn k m.last_seen t h)) in
        elim (Option-cases q.0) [
          | inl e ↦ rw (e, poll_once) same
          | inr (l, e) ↦ rw (e, poll_once) (ground (arith, same, saved l q.1))
        ]

    rounds-hide :
        (k : Text) (set : Bool) (waits : List (Bool × Option Table)) (m : Manager) (w : W)
        → All (λ (p : Bool × Option Table). IsSecretInAny k p.1) waits
        → lookup k (poll_task decode loads call set waits m w).0.0.cache ≡ lookup k m.cache
    unfolding poll_task
    rounds-hide k true waits m w h = refl
    rounds-hide k false [] m w h = refl
    rounds-hide k false ((true, t) ∷ waits) m w (p, h) = refl
    rounds-hide k false ((false, t) ∷ waits) m w (p, h) =
        let q = poll_once decode loads call t m w in
        ground (arith, rounds-hide k false waits q.0 q.1 h, poll_once-hides k t m w p)

    -- Let a new manager with a pool start and poll, however long, tables in which every row of a
    -- key is a secret. Then `get` never has a value for the key but the default, even if a poll or
    -- the start failed on the way.
    pub secrets_stay_out :
        (u : Setup) (t : Option Table) (d : Option (Dict Text (Value × Bool))) (k : Text)
        → u.has_pool ≡ true
        → IsSecretInAny k t
        → (set : Bool) (waits : List (Bool × Option Table)) (default : Value) (w : W)
        → All (λ (p : Bool × Option Table). IsSecretInAny k p.1) waits
        → let s = (start decode loads u t d (constructed empty)).0 in
          get k default (poll_task decode loads call set waits s.manager w).0.0 ≡ default
    unfolding get lookup
    secrets_stay_out u t d k hp h set waits default w hs =
        let s = (start decode loads u t d (constructed empty)).0 in
        ground (
          arith,
          rounds-hide k set waits s.manager w hs,
          start-manager decode loads u t d (constructed empty) hp,
          load_from_pool-hides k t empty h,
        )

-- If base64 and UTF-8 decode what they encoded and the encryption key decodes to 32 bytes, then
-- `get_secret` gives the text whose token, as `encrypt_value` made it, the row of the key has as a
-- secret.
pub get_secret-encrypt_value :
    (a : Aead) (v : IsAead a) (c : Codecs)
    → ((b : Bytes) → c.b64decode (c.b64encode b) ≡ some b)
    → (repr : Column → Text) (n : Bytes) (s encryption_key : Text) (kek : Bytes)
    → length n ≡ nonce_size
    → c.b64decode encryption_key ≡ some kek
    → length kek ≡ kek_size
    → c.utf8_decode (utf8 s) ≡ some s
    → (k token : Text) (t : Table) (q : Setting) → encrypt_value c a n s encryption_key ≡ ok token
    → lookup k t ≡ some q
    → q.value_json ≡ text token
    → q.is_secret ≡ true
    → get_secret (decrypt_value c a) repr k encryption_key t ≡ some s
unfolding get_secret to_str
get_secret-encrypt_value a v c b64 repr n s key kek hn e hk u k token t q he hl ht hs =
    let back = decrypt_value-encrypt_value a v c b64 n s key kek hn e hk u in
    ground (arith, hl, ht, hs, he, back)

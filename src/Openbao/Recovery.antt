-- ===== src/Openbao/Recovery.antt =====
-- omkit/kms/openbao.py: a request outlives the token that it starts with.
use omkit_python.Prelude.{
  ◌+◌, ◌≡◌, ◌⊎◌, refl, inl, inr, Bool, true, false, Option, none, some, [], ◌∷◌, eqb, arith,
  Bool-cases,
}
use omkit_python.Prelude.Text.{Text, codes, is_empty, text_eq}
use omkit_python.Prelude.Int.{ℤ}
use omkit_python.Prelude.Exceptions.{Result, ok, raise}
use omkit_python.Json.{Value, null, boolean, arr, obj, str, int, Fields, end, field}
use omkit_python.Openbao.{
  Error, unavailable, auth, attribute_error, type_error, value_error, unicode_error, Response,
  Request, Client, Setup, State, ◌>>=◌, login_path, token_header, expected, lease_or_hour,
}
use omkit_python.Openbao.Session.{
  read, send, do_raw, login_fields, keep_token, login, is_fresh, get_token, retry, do_request,
}

module _ {W : Type 0} (c : Client W) (u : Setup) where
  abbrev pub login_request : Request
  login_request = record {
    verb = codes "POST";
    path = login_path;
    token = none;
    body =
        some (
          field (codes "role_id") (str u.role_id)
            (field (codes "secret_id") (str u.secret_id) end));
  }

  abbrev pub with_token : Text → Text → Option Fields → Text → Request
  with_token verb path body t = record { verb = verb; path = path; token = some t; body = body }

  -- What is assumed of the server: it knows which tokens it accepts, answers another one with a 403,
  -- and a login with a token that it accepts from then on.
  pub record Vault : Type 0 where
    pub accepts : W → Text → Bool
    pub rejects :
        (verb path : Text) (body : Option Fields) (t : Text) (w : W)
        → accepts w t ≡ false
        → (r : Response) × ((c.request (with_token verb path body t) w).0 ≡ some r)
          × (r.status ≡ 403)
    pub logs_in :
        (w : W)
        → (r : Response) × (v : Value) × (t : Text) × (n : ℤ) × ((c.request login_request w).0
            ≡ some r)
          × (read c u r ≡ ok v)
          × (login_fields c u v ≡ ok (str t, n))
          × (is_empty t ≡ false)
          × (accepts (c.request login_request w).1 t ≡ true)

  -- The token of the client is a text that is not empty, or absent.
  abbrev pub IsText : Option Value → Type 0
  IsText none = Unit
  IsText (some (str t)) = is_empty t ≡ false
  IsText (some v) = ⊥

  module _ (vault : Vault) where
    -- The result is that of the request with a token that the server accepts at the time.
    pub record Answered (verb path : Text) (body : Option Fields) (r : Result Error Value × State W)
        : Type 0 where
      pub token : Text
      pub sent_from : State W
      pub accepted : vault.accepts sent_from.world token ≡ true
      pub answer : r ≡ send c u (with_token verb path body token) sent_from

    do_raw-send :
        (verb path t : Text) (body : Option Fields) (s : State W)
        → is_empty t ≡ false
        → do_raw c u verb path (some (str t)) body s ≡ send c u (with_token verb path body t) s
    unfolding do_raw token_header
    do_raw-send verb path t body s h = ground (arith, h)

    pub login_lem :
        (s : State W)
        → (t : Text) × (s' : State W) × (login c u s ≡ (ok (str t), s'))
          × (is_empty t ≡ false)
          × (vault.accepts s'.world t ≡ true)
          × (s'.token ≡ some (str t))
    unfolding login do_raw send token_header keep_token expected
    login_lem s =
        let (r, v, t, n, sent, got, fields, full, good) = vault.logs_in s.world in
        let w' = (c.request login_request s.world).1 in
        (
          t,
          record {
            token = some (str t);
            token_expiry = c.monotonic w' + lease_or_hour n;
            world = w';
          },
          ground (arith, sent, got, fields, full),
          full,
          good,
          refl,
        )

    resend :
        (verb path : Text) (body : Option Fields) (s : State W)
        → Answered verb path body ((login c u >>= λ t. do_raw c u verb path (some t) body) s)
    resend verb path body s =
        let (t, s', logged, full, good, kept) = login_lem s in
        record {
          token = t;
          sent_from = s';
          accepted = good;
          answer = rw logged (do_raw-send verb path t body s' full);
        }

    send-rejected :
        (verb path t : Text) (body : Option Fields) (s : State W)
        → vault.accepts s.world t ≡ false
        → (send c u (with_token verb path body t) s).0 ≡ raise (auth 403)
    unfolding send read
    send-rejected verb path t body s h =
        let (r, sent, status) = vault.rejects verb path body t s.world h in
        ground (arith, sent, status)

    retry-Answered :
        (verb path : Text) (body : Option Fields) (r : Result Error Value × State W)
        → r.0 ≡ raise (auth 403)
        → Answered verb path body (retry c u verb path body r)
    unfolding retry get_token
    retry-Answered verb path body (r, s) h =
        rw (h, retry) (resend verb path body (record s { token = none }))

    retry-cases :
        (verb path : Text) (body : Option Fields) (r : Result Error Value × State W)
        → (r.0 ≡ raise (auth 403)) ⊎ (retry c u verb path body r ≡ r)
    unfolding retry
    retry-cases verb path body (ok v, s) = inr refl
    retry-cases verb path body (raise (auth k), s) = elim (Bool-cases (eqb k 403)) [
      | inl e ↦ inl (ground (arith, e))
      | inr e ↦ inr (rw (e, retry) refl)
    ]
    retry-cases verb path body (raise (unavailable k), s) = inr refl
    retry-cases verb path body (raise attribute_error, s) = inr refl
    retry-cases verb path body (raise type_error, s) = inr refl
    retry-cases verb path body (raise value_error, s) = inr refl
    retry-cases verb path body (raise unicode_error, s) = inr refl

    cached-Answered :
        (verb path t : Text) (body : Option Fields) (s : State W)
        → is_empty t ≡ false
        → Answered verb path body
            (retry c u verb path body (send c u (with_token verb path body t) s))
    cached-Answered verb path t body s h =
        let r = send c u (with_token verb path body t) s in
        elim (Bool-cases (vault.accepts s.world t)) [
          | inr stale ↦ retry-Answered verb path body r (send-rejected verb path t body s stale)
          | inl good ↦ elim (retry-cases verb path body r) [
            | inl refused ↦ retry-Answered verb path body r refused
            | inr kept ↦ record { token = t; sent_from = s; accepted = good; answer = kept }
          ]
        ]

    from_login :
        (verb path : Text) (body : Option Fields) (s : State W)
        → Answered verb path body (
            (login c u >>= λ t s'. retry c u verb path body (do_raw c u verb path (some t) body s'))
              s)
    from_login verb path body s =
        let (t, s', logged, full, good, kept) = login_lem s in
        rw (logged, do_raw-send verb path t body s' full) (cached-Answered verb path t body s' full)

    by_token :
        (verb path : Text) (body : Option Fields) (s : State W) (o : Option Value)
        → s.token ≡ o
        → IsText o
        → Answered verb path body (do_request c u verb path body s)
    unfolding do_request get_token
    by_token verb path body s none e h = rw (e, get_token) (from_login verb path body s)
    by_token verb path body s (some (str [])) e h = cc
    by_token verb path body s (some (str (k ∷ t))) e h = elim (Bool-cases (is_fresh c u s)) [
      | inl fresh ↦ rw (e, get_token, fresh) (cached-Answered verb path (k ∷ t) body s refl)
      | inr old ↦ rw (e, get_token, old) (from_login verb path body s)
    ]
    by_token verb path body s (some null) e h = absurd h
    by_token verb path body s (some (boolean b)) e h = absurd h
    by_token verb path body s (some (int n)) e h = absurd h
    by_token verb path body s (some (arr xs)) e h = absurd h
    by_token verb path body s (some (obj fs)) e h = absurd h

    -- Suppose that a login gives a token that the server accepts, and that it answers any other
    -- token with a 403. Then the result of an authenticated request is that of sending it with a
    -- token that the server accepts at the time, whatever token the client has kept: a token that
    -- expired or was revoked is replaced, and its 403 is not seen by the caller.
    pub do_request_recovers :
        (verb path : Text) (body : Option Fields) (s : State W)
        → IsText s.token
        → Answered verb path body (do_request c u verb path body s)
    unfolding do_request get_token
    do_request_recovers verb path body s h = by_token verb path body s s.token refl h

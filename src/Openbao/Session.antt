-- ===== src/Openbao/Session.antt =====
-- omkit/kms/openbao.py: one round trip, the token and its refresh, and the retry after a 403.
use omkit_python.Prelude.{
  ◌+◌, Bool, ◌&&◌, Option, none, some, [], if◌then◌else◌, ltb, leb, eqb, take,
}
use omkit_python.Prelude.Text.{Text, codes, is_empty}
use omkit_python.Prelude.Int.{ℤ, pos}
use omkit_python.Prelude.Exceptions.{Result, ok, raise}
use omkit_python.Json.{Value, int, str, obj, Fields, end, field, truthy}
use omkit_python.Openbao.{
  Error, unavailable, auth, Response, Request, Client, Setup, State, Call, ◌>>=◌, give,
  token_refresh_window, max_resp_bytes, login_path, token_header, or_default, get_in, int_value,
  expected, lease_or_hour,
}

module _ {W : Type 0} (c : Client W) (u : Setup) where
  -- The end of `_do_raw`, which reads the response.
  unfoldable pub read : Response → Result Error Value
  read r =
      let body = take max_resp_bytes r.content in
      if leb 500 r.status
      then raise (unavailable r.status)
      else if leb 400 r.status
      then raise (auth r.status)
      else if is_empty body
      then ok (obj end)
      else elim (u.loads body) [ none ↦ raise (unavailable r.status) | some v ↦ ok v ]

  unfoldable pub send : Request → Call W Value
  unfolding read
  send q s =
      let (answer, w) = c.request q s.world in
      (elim answer [ none ↦ raise (unavailable 0) | some r ↦ read r ], record s { world = w })

  unfoldable pub do_raw : Text → Text → Option Value → Option Fields → Call W Value
  unfolding send token_header
  do_raw verb path token body = do
    header ← give (token_header token)
    send (record { verb = verb; path = path; token = header; body = body })

  -- The two fields of the response to a login.
  unfoldable pub login_fields : Value → Result Error (Value × ℤ)
  unfolding get_in int_value
  login_fields v = elim (get_in (codes "auth") (codes "client_token") v) [
    | raise x ↦ raise x
    | ok t ↦ elim (get_in (codes "auth") (codes "lease_duration") v) [
      | raise x ↦ raise x
      | ok l ↦ elim (int_value u.int_of (or_default (int (pos 0)) l)) [
        | raise x ↦ raise x
        | ok n ↦ ok (or_default (str []) t, n)
      ]
    ]
  ]

  unfoldable pub keep_token : Value × ℤ → Call W Value
  keep_token (client_token, lease) s =
      if truthy client_token
      then (
        ok client_token,
        record s {
          token = some client_token;
          token_expiry = c.monotonic s.world + lease_or_hour lease;
        },
      )
      else (raise (unavailable 0), s)

  unfoldable pub login : Call W Value
  unfolding do_raw expected login_fields keep_token
  login = do
    resp ← do_raw (codes "POST") login_path none (
        some (
          field (codes "role_id") (str u.role_id)
            (field (codes "secret_id") (str u.secret_id) end)))
    fields ← give (expected (login_fields resp))
    keep_token fields

  -- Whether `_get_token` hands out the token that it has.
  abbrev pub is_fresh : State W → Bool
  is_fresh s = ltb (c.monotonic s.world + token_refresh_window) s.token_expiry

  unfoldable pub get_token : Call W Value
  unfolding login
  get_token s = elim s.token [
    | none ↦ login s
    | some t ↦ if truthy t && is_fresh s then (ok t, s) else login s
  ]

  -- The handler of `_do`: after a 403 the token is dropped and the request sent once more.
  unfoldable pub retry :
      Text → Text → Option Fields → Result Error Value × State W → Result Error Value × State W
  unfolding get_token do_raw
  retry verb path body (raise (auth status), s) =
      if eqb status 403
      then (get_token >>= λ t. do_raw verb path (some t) body) (record s { token = none })
      else (raise (auth status), s)
  retry verb path body r = r

  -- `_do`
  unfoldable pub do_request : Text → Text → Option Fields → Call W Value
  unfolding get_token do_raw retry
  do_request verb path body = do
    t ← get_token
    λ s. retry verb path body (do_raw verb path (some t) body s)

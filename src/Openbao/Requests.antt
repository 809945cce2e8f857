-- ===== src/Openbao/Requests.antt =====
-- omkit/kms/openbao.py: which requests an operation sends.
use omkit_python.Prelude.{
  ℕ, ◌+◌, ◌≡◌, ◌⊎◌, refl, ◌∙◌, ap, inl, inr, true, false, ◌&&◌, Option, none, some, List, [], ◌∷◌,
  ◌++◌, append_assoc, arith, ◌≤◌, length, length-append, All, Bool-cases, Option-cases, eqb,
}
use mathlib.Core.Path.{subst⁻¹}
use omkit_python.Prelude.Text.{Text, is_empty}
use omkit_python.Prelude.Int.{ℤ}
use omkit_python.Prelude.Exceptions.{Result, ok, raise}
use omkit_python.Json.{Value, null, boolean, int, str, arr, obj, Fields, truthy}
use omkit_python.Openbao.{
  Error, unavailable, auth, attribute_error, type_error, value_error, unicode_error, Request,
  Client, Setup, State, Call, resume, ◌>>=◌, give, login_path, token_header, expected,
}
use omkit_python.Openbao.Session.{
  send, do_raw, login_fields, keep_token, login, is_fresh, get_token, retry, do_request,
}

-- A request that carries a token, or is the login.
abbrev pub Signed : Request → Type 0
Signed q =
    ((t : Text) × (q.token ≡ some t) × (is_empty t ≡ false))
    ⊎ ((q.path ≡ login_path) × (q.token ≡ none))

module _ {W : Type 0} (c : Client W) (u : Setup) (log : W → List Request)
    (logs : (q : Request) (w : W) → log (c.request q w).1 ≡ q ∷ log w) where
  -- From `s` on at most `n` requests were sent, each of them signed.
  pub record Sent {A : Type 0} (n : ℕ) (s : State W) (r : Result Error A × State W) : Type 0 where
    pub requests : List Request
    pub logged : log r.1.world ≡ requests ++ log s.world
    pub few : length requests ≤ n
    pub signed : All Signed requests

  All-append : (xs ys : List Request) → All Signed xs → All Signed ys → All Signed (xs ++ ys)
  All-append [] ys h k = k
  All-append (x ∷ xs) ys h k = (h.0, All-append xs ys h.1 k)

  nothing :
      {A : Type 0} (n : ℕ) (s s' : State W) (r : Result Error A)
      → s'.world ≡ s.world
      → Sent n s (r, s')
  nothing n s s' r e = record { requests = []; logged = ap log e; few = omega arith; signed = tt }

  then_sent :
      {A B : Type 0} (n k : ℕ) (s s' s0 : State W) (r : Result Error A)
      (q : Result Error B × State W)
      → Sent n s (r, s')
      → s0.world ≡ s'.world
      → Sent k s0 q
      → Sent (n + k) s q
  then_sent n k s s' s0 r q a e b = record {
    requests = b.requests ++ a.requests;
    logged =
        ground (arith, b.logged, e, a.logged, append_assoc b.requests a.requests (log s.world));
    few = omega (arith, length-append {0} b.requests a.requests, a.few, b.few);
    signed = All-append b.requests a.requests b.signed a.signed;
  }

  more :
      {A : Type 0} (n k : ℕ) (s : State W) (r : Result Error A × State W)
      → n ≤ k
      → Sent n s r
      → Sent k s r
  more n k s r le a = record {
    requests = a.requests;
    logged = a.logged;
    few = omega (arith, a.few);
    signed = a.signed;
  }

  send-Sent : (q : Request) (s : State W) → Signed q → Sent 1 s (send c u q s)
  unfolding send
  send-Sent q s h = record {
    requests = q ∷ [];
    logged = logs q s.world;
    few = omega arith;
    signed = (h, tt);
  }

  do_raw-Sent :
      (verb path : Text) (v : Value) (body : Option Fields) (s : State W)
      → truthy v ≡ true
      → Sent 1 s (do_raw c u verb path (some v) body s)
  unfolding do_raw token_header
  do_raw-Sent verb path (str []) body s h = cc
  do_raw-Sent verb path (str (k ∷ t)) body s h = send-Sent _ s (inl (k ∷ t, refl, refl))
  do_raw-Sent verb path null body s h = cc
  do_raw-Sent verb path (boolean b) body s h =
      rw (h, do_raw) (nothing 1 s s (raise type_error) refl)
  do_raw-Sent verb path (int n) body s h = rw (h, do_raw) (nothing 1 s s (raise type_error) refl)
  do_raw-Sent verb path (arr xs) body s h = rw (h, do_raw) (nothing 1 s s (raise type_error) refl)
  do_raw-Sent verb path (obj fs) body s h = rw (h, do_raw) (nothing 1 s s (raise type_error) refl)

  resume-quiet :
      {A B : Type 0} (n : ℕ) (s : State W) (k : A → Call W B) (r : Result Error A × State W)
      → ((a : A) (s' : State W) → (k a s').1.world ≡ s'.world)
      → Sent n s r
      → Sent n s (resume k r)
  resume-quiet n s k (ok v, s') q a = record {
    requests = a.requests;
    logged = ap log (q v s') ∙ a.logged;
    few = a.few;
    signed = a.signed;
  }
  resume-quiet n s k (raise x, s') q a = record {
    requests = a.requests;
    logged = a.logged;
    few = a.few;
    signed = a.signed;
  }

  resume-Sent :
      {A B : Type 0} (n m : ℕ) (s : State W) (k : A → Call W B) (r : Result Error A × State W)
      → ((a : A) (s' : State W) → r ≡ (ok a, s') → Sent m s' (k a s'))
      → Sent n s r
      → Sent (n + m) s (resume k r)
  resume-Sent n m s k (ok v, s') q a = then_sent n m s s' s' (ok v) (k v s') a refl (q v s' refl)
  resume-Sent n m s k (raise x, s') q a =
      more n (n + m) s _ (omega arith)
        (record { requests = a.requests; logged = a.logged; few = a.few; signed = a.signed })

  keep_token-world : (f : Value × ℤ) (s : State W) → (keep_token c u f s).1.world ≡ s.world
  unfolding keep_token
  keep_token-world f s = ground arith

  login_tail-world :
      (v : Value) (s : State W)
      → ((give (expected (login_fields c u v)) >>= λ f. keep_token c u f) s).1.world ≡ s.world
  login_tail-world v s = resume-world (expected (login_fields c u v))
    where
      resume-world :
          (r : Result Error (Value × ℤ)) → (resume (λ f. keep_token c u f) (r, s)).1.world ≡ s.world
      resume-world (ok f) = keep_token-world f s
      resume-world (raise x) = refl

  login-Sent : (s : State W) → Sent 1 s (login c u s)
  unfolding login do_raw token_header
  login-Sent s = resume-quiet 1 s _ _ login_tail-world (send-Sent _ s (inr (refl, refl)))

  keep_token-truthy :
      (f : Value × ℤ) (s s' : State W) (v : Value)
      → keep_token c u f s ≡ (ok v, s')
      → truthy v ≡ true
  unfolding keep_token
  keep_token-truthy f s s' v h = ground (arith, h)

  resume-truthy :
      (r : Result Error (Value × ℤ)) (s s' : State W) (v : Value)
      → resume (λ f. keep_token c u f) (r, s) ≡ (ok v, s')
      → truthy v ≡ true
  resume-truthy (ok f) s s' v h = keep_token-truthy f s s' v h
  resume-truthy (raise x) s s' v h = cc

  tail-truthy :
      (r : Result Error Value × State W) (s' : State W) (v : Value)
      → resume (λ a. give (expected (login_fields c u a)) >>= λ f. keep_token c u f) r ≡ (ok v, s')
      → truthy v ≡ true
  tail-truthy (ok a, s) s' v h = resume-truthy (expected (login_fields c u a)) s s' v h
  tail-truthy (raise x, s) s' v h = cc

  login-truthy : (s s' : State W) (v : Value) → login c u s ≡ (ok v, s') → truthy v ≡ true
  unfolding login
  login-truthy s s' v h = tail-truthy _ s' v h

  get_token-cases :
      (s : State W)
      → (get_token c u s ≡ login c u s) ⊎ ((t : Value) × (get_token c u s ≡ (ok t, s)))
  unfolding get_token
  get_token-cases s = elim (Option-cases s.token) [
    | inl e ↦ inl (ground (arith, e))
    | inr (t, e) ↦ elim (Bool-cases (truthy t && is_fresh c u s)) [
      | inl fresh ↦ inr (t, ground (arith, e, fresh))
      | inr old ↦ inl (ground (arith, e, old))
    ]
  ]

  get_token-Sent : (s : State W) → Sent 1 s (get_token c u s)
  get_token-Sent s = elim (get_token-cases s) [
    | inl e ↦ subst⁻¹ (Sent 1 s) e (login-Sent s)
    | inr (t, e) ↦ subst⁻¹ (Sent 1 s) e (nothing 1 s s (ok t) refl)
  ]

  get_token-truthy : (s s' : State W) (v : Value) → get_token c u s ≡ (ok v, s') → truthy v ≡ true
  unfolding get_token
  get_token-truthy s s' v h = ground (arith, h, login-truthy s s' v)

  attempt-Sent :
      (verb path : Text) (body : Option Fields) (s : State W)
      → Sent 2 s ((get_token c u >>= λ t. do_raw c u verb path (some t) body) s)
  attempt-Sent verb path body s =
      resume-Sent 1 1 s _ (get_token c u s)
        (λ v s' e. do_raw-Sent verb path v body s' (get_token-truthy s s' v e)) (get_token-Sent s)

  retry-Sent :
      (n : ℕ) (verb path : Text) (body : Option Fields) (s : State W)
      (r : Result Error Value × State W)
      → Sent n s r
      → Sent (n + 2) s (retry c u verb path body r)
  unfolding retry
  retry-Sent n verb path body s (ok v, s') a = more n (n + 2) s _ (omega arith) a
  retry-Sent n verb path body s (raise (auth k), s') a = elim (Bool-cases (eqb k 403)) [
    | inl e ↦
        rw (e, retry)
          (then_sent n 2 s s' (record s' { token = none }) (raise (auth k)) _ a refl
            (attempt-Sent verb path body (record s' { token = none })))
    | inr e ↦ rw (e, retry) (more n (n + 2) s _ (omega arith) a)
  ]
  retry-Sent n verb path body s (raise (unavailable k), s') a = more n (n + 2) s _ (omega arith) a
  retry-Sent n verb path body s (raise attribute_error, s') a = more n (n + 2) s _ (omega arith) a
  retry-Sent n verb path body s (raise type_error, s') a = more n (n + 2) s _ (omega arith) a
  retry-Sent n verb path body s (raise value_error, s') a = more n (n + 2) s _ (omega arith) a
  retry-Sent n verb path body s (raise unicode_error, s') a = more n (n + 2) s _ (omega arith) a

  -- An authenticated call, whatever it returns or raises, sends four requests at most: a login, the
  -- request, and both once more after a 403. Each of them carries a token that is not empty, or is
  -- the login, which carries none.
  pub do_request-Sent :
      (verb path : Text) (body : Option Fields) (s : State W)
      → Sent 4 s (do_request c u verb path body s)
  unfolding do_request
  do_request-Sent verb path body s =
      resume-Sent 1 3 s _ (get_token c u s)
        (λ v s' e.
          retry-Sent 1 verb path body s' _
            (do_raw-Sent verb path v body s' (get_token-truthy s s' v e)))
        (get_token-Sent s)

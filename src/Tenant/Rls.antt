-- ===== src/Tenant/Rls.antt =====
-- omkit/tenant.py: the tenant of a database session, through nested blocks and transactions.
use omkit_python.Prelude.{
  ◌≡◌, refl, inl, inr, Bool, true, false, Option, none, some, List, [], ◌∷◌, arith, Option-cases,
  Bool-cases,
}
use omkit_python.Prelude.Text.{Text}
use omkit_python.Prelude.Exceptions.{Result, ok, raise}
use omkit_python.Tenant.{Context, Error, require, Session, set_rls}

-- What is done to a session. The end of a transaction takes its local settings back, as PostgreSQL
-- documents for `set_config(…, true)`.
pub data Action : Type 0 where
  begins ends : Action
  sets : Context → Action

abbrev kept : Session → Result Error Session → Session
kept s (ok s') = s'
kept s (raise x) = s

unfoldable pub act : Action → Session → Session
unfolding set_rls
act begins s = record s { in_transaction = true }
act ends s = record { in_transaction = false; app_tenant_id = none }
act (sets c) s = kept s (set_rls c s)

unfoldable pub run : List Action → Session → Session
unfolding act
run [] s = s
run (a ∷ more) s = run more (act a s)

abbrev pub fresh : Session
fresh = record { in_transaction = false; app_tenant_id = none }

-- The tenant of the last `set_rls` with a tenant since the transaction began, if one is open.
abbrev pub expected : Bool → Option Text → List Action → Option Text
expected open_now t [] = t
expected open_now t (begins ∷ more) = expected true t more
expected open_now t (ends ∷ more) = expected false none more
expected false t (sets c ∷ more) = expected false t more
expected true t (sets c ∷ more) = elim c.tenant_id [
  | none ↦ expected true t more
  | some q ↦ expected true (some q) more
]

run-expected :
    (more : List Action) (s : Session)
    → (run more s).app_tenant_id ≡ expected s.in_transaction s.app_tenant_id more
unfolding run require
run-expected [] s = refl
run-expected (begins ∷ more) s = run-expected more (record s { in_transaction = true })
run-expected (ends ∷ more) s = run-expected more fresh
run-expected (sets c ∷ more) s = elim (Bool-cases s.in_transaction) [
  | inl inside ↦ elim (Option-cases c.tenant_id) [
    | inl e ↦ ground (arith, inside, e, run-expected more s)
    | inr (t, e) ↦
        ground (arith, inside, e, run-expected more (record s { app_tenant_id = some t }))
  ]
  | inr outside ↦ ground (arith, outside, run-expected more s)
]

IsLocal : Session → Type 0
IsLocal s = s.in_transaction ≡ false → s.app_tenant_id ≡ none

run-IsLocal : (more : List Action) (s : Session) → IsLocal s → IsLocal (run more s)
unfolding run IsLocal require
run-IsLocal [] s v = v
run-IsLocal (begins ∷ more) s v =
    run-IsLocal more (record s { in_transaction = true }) (λ e. absurd (ground arith))
run-IsLocal (ends ∷ more) s v = run-IsLocal more fresh (λ e. refl)
run-IsLocal (sets c ∷ more) s v = elim (Bool-cases s.in_transaction) [
  | inl inside ↦ elim (Option-cases c.tenant_id) [
    | inl e ↦ ground (arith, inside, e, run-IsLocal more s v)
    | inr (t, e) ↦ ground (
      arith,
      inside,
      e,
      run-IsLocal more (record s { app_tenant_id = some t })
          (λ o. absurd (ground (arith, o, inside))),
    )
  ]
  | inr outside ↦ ground (arith, outside, run-IsLocal more s v)
]

-- Over any beginnings and ends of transactions and calls of `set_rls`, from a session without
-- either: the session has the tenant of the last call with a tenant in the transaction that is
-- open, whatever was called outside of transactions or without a tenant, and outside of transactions
-- it has none.
pub run-tenant :
    (more : List Action)
    → ((run more fresh).app_tenant_id ≡ expected false none more)
      × ((run more fresh).in_transaction ≡ false → (run more fresh).app_tenant_id ≡ none)
unfolding IsLocal
run-tenant more = (run-expected more fresh, run-IsLocal more fresh (λ e. refl))

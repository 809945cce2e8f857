-- ===== src/Resilience/Tests.antt =====
-- Witnesses and tests for the circuit breaker.
use omkit_python.Prelude.{
  ℕ, zero, suc, ◌+◌, ◌<◌, ◌≡◌, refl, ◌↔◌, Bool, true, false, List, [], ◌∷◌, inl, inr, arith,
  Bool-cases,
}
use omkit_python.Resilience.{
  CircuitBreaker, State, Exc, circuit_open, connect_error, returned, raised, init, World, Coro,
  call, is_transient,
}
use omkit_python.Resilience.Streak.{Action, run, streak, run-streak}
use omkit_python.Resilience.Invariant.{IsValid}
use omkit_python.Resilience.Calls.{
  call_fails_fast, first_call_rejected, probe_success_closes, probe_failure_reopens,
}
use omkit_python.Resilience.Retry.{
  wants_retry, Attempts, final, last, again, resilient, resilient_fails_fast,
}

-- Two failures in a row, after a failure and a success.
abbrev history : List Action
history = Action.fails 1 ∷ Action.succeeds ∷ Action.fails 2 ∷ Action.reads 3 ∷ Action.fails 4 ∷ []

run-streak_example :
    ((run history (init 2 60)).failures ≡ streak 0 history)
    × (((run history (init 2 60)).state ≡ State.closed) ↔ (streak 0 history < 2))
run-streak_example = run-streak 2 60 history (omega arith)

-- A breaker that opened at 4 after two failures and was not looked at since.
abbrev tripped : CircuitBreaker
tripped = record {
  fail_max = 2;
  reset_timeout = 60;
  failures = 2;
  state = State.opened;
  opened_at = 4;
  open_observed = false;
}

run-tripped : run history (init 2 60) ≡ tripped
unfolding run init
run-tripped = refl

abbrev half : CircuitBreaker
half = record tripped { state = State.half_open; open_observed = true }

abbrev seen_at : ℕ → World
seen_at t = record { clock = t; breaker = record tripped { open_observed = true } }

abbrev answer : Coro ℕ
answer w = (record w { clock = w.clock + 1 }, returned 7)

abbrev refuse : Coro ℕ
refuse w = (record w { clock = w.clock + 1 }, raised connect_error)

call-too_early : call answer (seen_at 63) ≡ (seen_at 63, raised circuit_open)
call-too_early = call_fails_fast answer (seen_at 63) refl (omega arith)

first_call_rejected-tested :
    call answer (record { clock = 1000; breaker = tripped }) ≡ (seen_at 1000, raised circuit_open)
first_call_rejected-tested =
    first_call_rejected answer (record { clock = 1000; breaker = tripped }) refl refl

call-probe_returns :
    let (w, o) = call answer (seen_at 64) in
    (o ≡ returned 7) × (w.breaker.state ≡ State.closed) × (w.breaker.failures ≡ 0)
call-probe_returns =
    probe_success_closes answer (seen_at 64) refl refl (omega arith) 7
      (record { clock = 65; breaker = half }) refl

call-probe_raises :
    let (w, o) = call refuse (seen_at 64) in
    (o ≡ raised connect_error)
    × (w.breaker.state ≡ State.opened)
    × (w.breaker.opened_at ≡ 65)
    × (w.breaker.open_observed ≡ false)
call-probe_raises =
    probe_failure_reopens refuse (seen_at 64) refl refl (omega arith) connect_error
      (record { clock = 65; breaker = half }) seen-IsValid refl refl
  where
    seen-IsValid : IsValid (seen_at 64).breaker
    seen-IsValid = ground arith

-- A `retry` that waits one tick between the attempts.
abbrev tick : World → World
tick w = record w { clock = w.clock + 1 }

retry_loop : ℕ → (Exc → Bool) → Coro ℕ → Coro ℕ
retry_loop zero test attempt w = attempt w
retry_loop (suc n) test attempt w =
    let rest = retry_loop n test attempt (tick (attempt w).0) in
    elim (wants_retry test (attempt w).1) [ true ↦ rest | false ↦ attempt w ]

abbrev retry : ℕ → (Exc → Bool) → Coro ℕ → Coro ℕ
retry zero = retry_loop zero
retry (suc n) = retry_loop n

retry_loop-Attempts :
    (test : Exc → Bool) (attempt : Coro ℕ) (n : ℕ) (w : World)
    → Attempts test attempt tick n w (retry_loop n test attempt w)
unfolding retry_loop
retry_loop-Attempts test attempt zero w = last
retry_loop-Attempts test attempt (suc n) w = elim (Bool-cases (wants_retry test (attempt w).1)) [
  | inl more ↦
      rw (more, retry_loop) (again more (retry_loop-Attempts test attempt n (tick (attempt w).0)))
  | inr done ↦ rw (done, retry_loop) (final done)
]

resilient_fails_fast-tested :
    resilient retry tick answer (seen_at 63) ≡ (seen_at 63, raised circuit_open)
resilient_fails_fast-tested =
    resilient_fails_fast retry tick (λ attempt w. retry_loop-Attempts is_transient attempt 2 w)
      answer (seen_at 63) refl (omega arith)

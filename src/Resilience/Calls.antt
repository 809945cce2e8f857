-- ===== src/Resilience/Calls.antt =====
-- omkit/resilience.py: what `CircuitBreaker.call` does in each state.
use omkit_python.Prelude.{◌+◌, ◌≤◌, ◌<◌, ◌≡◌, true, false, arith}
use omkit_python.Resilience.{State, Exc, circuit_open, returned, raised, World, Coro, call}
use omkit_python.Resilience.Invariant.{IsValid}

module _ {A : Type 0} (coro : Coro A) (w : World) where
  -- While the breaker is open and its reset timeout has not passed, a call raises `CircuitOpen`:
  -- the coroutine is not run, and of the breaker only the mark `_open_observed` changes.
  pub call_fails_fast :
      w.breaker.state ≡ State.opened
      → w.clock < w.breaker.opened_at + w.breaker.reset_timeout
      → call coro w
        ≡ (record w { breaker = record (w.breaker) { open_observed = true } }, raised circuit_open)
  unfolding call
  call_fails_fast h t = ground arith

  -- The first call on a breaker that opened and was not looked at since is rejected, however long
  -- ago the breaker opened, also with a reset timeout of 0.
  pub first_call_rejected :
      w.breaker.state ≡ State.opened
      → w.breaker.open_observed ≡ false
      → call coro w
        ≡ (record w { breaker = record (w.breaker) { open_observed = true } }, raised circuit_open)
  unfolding call
  first_call_rejected h t = ground arith

  module _ (was_open : w.breaker.state ≡ State.opened) (seen : w.breaker.open_observed ≡ true)
      (due : w.breaker.opened_at + w.breaker.reset_timeout ≤ w.clock) where
    -- Once an open breaker was seen to be open, the first call after the reset timeout runs the
    -- coroutine on the breaker in the state HALF_OPEN. If that returns, the call returns the
    -- same, and the breaker is closed with no failures, whatever other tasks did to it.
    pub probe_success_closes :
        (a : A) (w' : World)
        → coro (record w { breaker = record (w.breaker) { state = State.half_open } })
          ≡ (w', returned a)
        → let (w'', o) = call coro w in
          (o ≡ returned a) × (w''.breaker.state ≡ State.closed) × (w''.breaker.failures ≡ 0)
    unfolding call
    probe_success_closes a w' e = ground arith

    -- If instead it raises, and the breaker was valid and no other task used it, one failure is
    -- enough: the breaker is open again, from the time at which the exception was raised.
    pub probe_failure_reopens :
        (x : Exc) (w' : World)
        → IsValid w.breaker
        → coro (record w { breaker = record (w.breaker) { state = State.half_open } })
          ≡ (w', raised x)
        → w'.breaker ≡ record (w.breaker) { state = State.half_open }
        → let (w'', o) = call coro w in
          (o ≡ raised x)
          × (w''.breaker.state ≡ State.opened)
          × (w''.breaker.opened_at ≡ w'.clock)
          × (w''.breaker.open_observed ≡ false)
    unfolding call
    probe_failure_reopens x w' v e same = ground (arith, v.tripped (λ c. cc))

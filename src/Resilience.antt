-- ===== src/Resilience.antt =====
-- omkit/resilience.py: the circuit breaker, the test for transient errors, and the decorator that
-- joins it to tenacity's `retry`. The clock, `time.monotonic()`, is an argument, in ticks. What a
-- call awaits is a function on the breaker, since other tasks may use it in the meantime.
pub mod Invariant
pub mod Streak
pub mod Calls
pub mod Retry
mod Tests
use omkit_python.Prelude.{
  ℕ, zero, suc, ◌+◌, Bool, true, false, Option, none, some, ◌||◌, ◌&&◌, leb, eqb, if◌then◌else◌,
}
use omkit_python.Prelude.Exceptions.{Result, ok, raise}

pub data State : Type 0 where
  closed opened half_open : State

-- The exceptions that the module tells apart; `other` is any other `Exception`.
pub data Exc : Type 0 where
  circuit_open connect_error timeout_error : Exc
  http_status_error : Option ℕ → Exc
  other : ℕ → Exc

-- How an awaited coroutine ends. `cancelled` is a `CancelledError`, which is no `Exception`.
pub data Outcome (A : Type 0) : Type 0 where
  returned : A → Outcome A
  raised : Exc → Outcome A
  cancelled : Outcome A

pub record CircuitBreaker : Type 0 where
  pub fail_max : ℕ
  pub reset_timeout : ℕ
  pub failures : ℕ
  pub state : State
  pub opened_at : ℕ
  pub open_observed : Bool

pub init : ℕ → ℕ → CircuitBreaker
init fail_max reset_timeout = record {
  fail_max = fail_max;
  reset_timeout = reset_timeout;
  failures = 0;
  state = State.closed;
  opened_at = 0;
  open_observed = false;
}

observe_open : ℕ → CircuitBreaker → CircuitBreaker
observe_open now b =
    if b.open_observed && leb (b.opened_at + b.reset_timeout) now
    then record b { state = State.half_open }
    else record b { open_observed = true }

observe : State → ℕ → CircuitBreaker → CircuitBreaker
unfolding observe_open
observe State.opened now b = observe_open now b
observe State.closed now b = b
observe State.half_open now b = b

-- The property `state`: a read may change the breaker. The value read is the new field.
pub read_state : ℕ → CircuitBreaker → CircuitBreaker
unfolding observe
read_state now b = observe b.state now b

pub record_success : CircuitBreaker → CircuitBreaker
record_success b = record b { failures = 0; state = State.closed; open_observed = false }

pub record_failure : ℕ → CircuitBreaker → CircuitBreaker
record_failure now b =
    if leb b.fail_max (b.failures + 1)
    then record b {
      failures = b.failures + 1;
      state = State.opened;
      opened_at = now;
      open_observed = false;
    }
    else record b { failures = b.failures + 1 }

-- What a running call sees of its surroundings: the clock and the breaker, which other tasks may
-- change while the call awaits its coroutine.
pub record World : Type 0 where
  pub clock : ℕ
  pub breaker : CircuitBreaker

-- An awaitable.
abbrev pub Coro : Type 0 → Type 0
Coro A = World → World × Outcome A

module _ {A : Type 0} where
  -- The end of `call`: `except Exception` lets a cancellation pass unrecorded.
  pub settle : World × Outcome A → World × Outcome A
  unfolding record_success record_failure
  settle (w, returned a) = (record w { breaker = record_success w.breaker }, returned a)
  settle (w, raised x) = (record w { breaker = record_failure w.clock w.breaker }, raised x)
  settle (w, cancelled) = (w, cancelled)

  admit : State → Coro A → Coro A
  unfolding settle
  admit State.opened coro w = (w, raised circuit_open)
  admit State.closed coro w = settle (coro w)
  admit State.half_open coro w = settle (coro w)

  pub call : Coro A → Coro A
  unfolding read_state admit
  call coro w =
      let b = read_state w.clock w.breaker in admit b.state coro (record w { breaker = b })

pub is_transient : Exc → Bool
is_transient connect_error = true
is_transient timeout_error = true
is_transient (http_status_error (some code)) = eqb code 502 || eqb code 503 || eqb code 504
is_transient _ = false

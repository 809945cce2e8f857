-- ===== src/Resilience/Invariant.antt =====
-- omkit/resilience.py: the invariant of the circuit breaker.
use omkit_python.Prelude.{ℕ, ◌≤◌, ◌<◌, ◌≡◌, ◌≢◌, true, false, arith}
use omkit_python.Resilience.{
  CircuitBreaker, State, init, read_state, record_success, record_failure,
}

pub record IsValid (b : CircuitBreaker) : Type 0 where
  pub armed : b.state ≡ State.closed → b.failures < b.fail_max
  pub tripped : b.state ≢ State.closed → b.fail_max ≤ b.failures
  pub unobserved : b.state ≡ State.closed → b.open_observed ≡ false
  pub probing : b.state ≡ State.half_open → b.open_observed ≡ true

pub init-IsValid :
    (fail_max reset_timeout : ℕ) → 0 < fail_max → IsValid (init fail_max reset_timeout)
unfolding init
init-IsValid fm rt h = ground arith

pub read_state-IsValid : (now : ℕ) (b : CircuitBreaker) → IsValid b → IsValid (read_state now b)
unfolding read_state
read_state-IsValid now b v = ground arith

pub record_success-IsValid : (b : CircuitBreaker) → 0 < b.fail_max → IsValid (record_success b)
unfolding record_success
record_success-IsValid b h = ground arith

pub record_failure-IsValid :
    (now : ℕ) (b : CircuitBreaker) → IsValid b → IsValid (record_failure now b)
unfolding record_failure
record_failure-IsValid now b v = ground arith

-- ===== src/Resilience/Streak.antt =====
-- omkit/resilience.py: what the breaker promises, as a count of consecutive failures.
use omkit_python.Prelude.{ℕ, ◌+◌, ◌<◌, ◌≡◌, refl, ◌↔◌, ◌⊎◌, inl, inr, ◌≢◌, List, [], ◌∷◌, arith}
use omkit_python.Resilience.{
  CircuitBreaker, State, init, read_state, record_success, record_failure,
}
use omkit_python.Resilience.Invariant.{
  IsValid, init-IsValid, read_state-IsValid, record_success-IsValid, record_failure-IsValid,
}

-- What the tasks of an event loop do to a breaker, one at a time.
pub data Action : Type 0 where
  reads : ℕ → Action
  succeeds : Action
  fails : ℕ → Action

pub act : Action → CircuitBreaker → CircuitBreaker
unfolding read_state record_success record_failure
act (Action.reads now) b = read_state now b
act Action.succeeds b = record_success b
act (Action.fails now) b = record_failure now b

unfoldable pub run : List Action → CircuitBreaker → CircuitBreaker
unfolding act
run [] b = b
run (a ∷ as_) b = run as_ (act a b)

-- The failures since the last success, after `n` of them.
unfoldable pub streak : ℕ → List Action → ℕ
streak n [] = n
streak n (Action.reads now ∷ l) = streak n l
streak n (Action.succeeds ∷ l) = streak 0 l
streak n (Action.fails now ∷ l) = streak (n + 1) l

pub act-IsValid : (a : Action) (b : CircuitBreaker) → 0 < b.fail_max → IsValid b → IsValid (act a b)
unfolding act
act-IsValid (Action.reads now) b h v = read_state-IsValid now b v
act-IsValid Action.succeeds b h v = record_success-IsValid b h
act-IsValid (Action.fails now) b h v = record_failure-IsValid now b v

act-fail_max : (a : Action) (b : CircuitBreaker) → (act a b).fail_max ≡ b.fail_max
unfolding act read_state record_success record_failure
act-fail_max (Action.reads now) b = ground arith
act-fail_max Action.succeeds b = refl
act-fail_max (Action.fails now) b = ground arith

read_state-failures : (now : ℕ) (b : CircuitBreaker) → (read_state now b).failures ≡ b.failures
unfolding read_state
read_state-failures now b = ground arith

record_failure-failures :
    (now : ℕ) (b : CircuitBreaker) → (record_failure now b).failures ≡ b.failures + 1
unfolding record_failure
record_failure-failures now b = ground arith

run-failures : (l : List Action) (b : CircuitBreaker) → (run l b).failures ≡ streak b.failures l
unfolding run streak record_success
run-failures [] b = refl
run-failures (Action.reads now ∷ l) b =
    rw (run-failures l (read_state now b), read_state-failures now b)
run-failures (Action.succeeds ∷ l) b = run-failures l (record_success b)
run-failures (Action.fails now ∷ l) b =
    rw (run-failures l (record_failure now b), record_failure-failures now b)

run-fail_max : (l : List Action) (b : CircuitBreaker) → (run l b).fail_max ≡ b.fail_max
unfolding run
run-fail_max [] b = refl
run-fail_max (a ∷ l) b = rw (run-fail_max l (act a b), act-fail_max a b)

run-IsValid :
    (l : List Action) (b : CircuitBreaker) → 0 < b.fail_max → IsValid b → IsValid (run l b)
unfolding run
run-IsValid [] b h v = v
run-IsValid (a ∷ l) b h v = run-IsValid l (act a b) (rw (act-fail_max a b) h) (act-IsValid a b h v)

state-cases : (s : State) → (s ≡ State.closed) ⊎ (s ≢ State.closed)
state-cases State.closed = inl refl
state-cases State.opened = inr (λ e. cc)
state-cases State.half_open = inr (λ e. cc)

closed_iff :
    (b : CircuitBreaker) {fm n : ℕ}
    → IsValid b
    → b.fail_max ≡ fm
    → b.failures ≡ n
    → (b.state ≡ State.closed) ↔ (n < fm)
closed_iff b v e f = (
  λ c. rw (← e, ← f) (v.armed c),
  λ lt. elim (state-cases b.state) [
    | inl c ↦ c
    | inr c ↦ let above = v.tripped c in absurd (omega arith)
  ],
)

-- After any interleaving of reads, successes and failures from a new breaker whose `fail_max` is
-- positive, the breaker counts exactly the failures since the last success, and it is in the
-- state CLOSED exactly when these are fewer than `fail_max`.
pub run-streak :
    (fail_max reset_timeout : ℕ) (l : List Action)
    → 0 < fail_max
    → ((run l (init fail_max reset_timeout)).failures ≡ streak 0 l)
      × (((run l (init fail_max reset_timeout)).state ≡ State.closed) ↔ (streak 0 l < fail_max))
unfolding init
run-streak fm rt l h =
    let v = run-IsValid l (init fm rt) h (init-IsValid fm rt h) in
    (
      run-failures l (init fm rt),
      closed_iff (run l (init fm rt)) v (run-fail_max l (init fm rt)) (run-failures l (init fm rt)),
    )

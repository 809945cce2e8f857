-- ===== src/Resilience/Retry.antt =====
-- omkit/resilience.py: `resilient`, which puts a function behind the breaker and that behind
-- tenacity's `retry`. `retry` is code of another package: a parameter, with what its documentation
-- says of `stop_after_attempt`, `retry_if_exception` and `reraise=True` as a hypothesis.
use omkit_python.Prelude.{ℕ, zero, suc, ◌+◌, ◌<◌, ◌≡◌, refl, ◌∙◌, Bool, true, false}
use omkit_python.Resilience.{
  State, Exc, circuit_open, Outcome, raised, World, Coro, call, is_transient,
}
use omkit_python.Resilience.Calls.{call_fails_fast}

-- `retry if`, on an outcome: only a raised exception is tested.
abbrev pub wants_retry : {A : Type 0} → (Exc → Bool) → Outcome A → Bool
wants_retry test (raised x) = test x
wants_retry test _ = false

-- A run of at most `suc n` attempts, with the wait between them.
module _ {A : Type 0} (test : Exc → Bool) (attempt : Coro A) (wait : World → World) where
  pub data Attempts : ℕ → World → World × Outcome A → Type 0 where
    final : {n : ℕ} {w : World} → wants_retry test (attempt w).1 ≡ false → Attempts n w (attempt w)
    last : {w : World} → Attempts zero w (attempt w)
    again :
        {n : ℕ} {w : World} {r : World × Outcome A}
        → wants_retry test (attempt w).1 ≡ true
        → Attempts n (wait (attempt w).0) r
        → Attempts (suc n) w r

  Attempts-first :
      {n : ℕ} {w : World} {r : World × Outcome A}
      → Attempts n w r
      → wants_retry test (attempt w).1 ≡ false
      → r ≡ attempt w
  Attempts-first (final h) e = refl
  Attempts-first last e = refl
  Attempts-first (again h t) e = cc

module _ {A : Type 0} (retry : ℕ → (Exc → Bool) → Coro A → Coro A) (wait : World → World) where
  -- `stop_after_attempt(3)`, on the call of `fn` through the breaker.
  pub resilient : Coro A → Coro A
  unfolding call
  resilient fn = retry 3 is_transient (call fn)

  -- Suppose that `retry` makes attempts as its documentation says, three at most, with a wait
  -- between them. Then a decorated function, called while the breaker is open and its reset
  -- timeout has not passed, raises `CircuitOpen` at once: the function is not run and the call is
  -- not retried.
  pub resilient_fails_fast :
      ((attempt : Coro A) (w : World)
        → Attempts is_transient attempt wait 2 w (retry 3 is_transient attempt w))
      → (fn : Coro A) (w : World) → w.breaker.state ≡ State.opened
      → w.clock < w.breaker.opened_at + w.breaker.reset_timeout
      → resilient fn w
        ≡ (record w { breaker = record (w.breaker) { open_observed = true } }, raised circuit_open)
  unfolding resilient is_transient
  resilient_fails_fast law fn w h t =
      let e = call_fails_fast fn w h t in
      Attempts-first is_transient (call fn) wait (law (call fn) w) (rw e) ∙ e

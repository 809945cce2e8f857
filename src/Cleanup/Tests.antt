-- ===== src/Cleanup/Tests.antt =====
-- Witnesses and tests for the periodic task.
use omkit_python.Prelude.{ℕ, ◌≡◌, ◌≢◌, refl, Bool, true, false, some, [], ◌∷◌, ◌+◌, arith}
use omkit_python.Cleanup.{Operations, tick, run, outside, working, Cluster, set_phase}
use omkit_python.Cleanup.Exclusion.{Locks, tick_releases}

-- The lock is free, or held by another; the task raises.
record World : Type 0 where
  held : Bool
  other : Bool
  rounds : ℕ

abbrev failing : Operations World
failing = record {
  acquire = λ w. (true, w);
  try_lock = λ w. (
    some (elim w.other [ true ↦ false | false ↦ true ]),
    record w { held = elim w.other [ true ↦ w.held | false ↦ true ] },
  );
  task = λ w. (false, record w { rounds = w.rounds + 1 });
  unlock = λ w. (true, record w { held = false });
}

abbrev free : World
free = record { held = false; other = false; rounds = 0 }

tick-raises : tick failing free ≡ (false, record free { rounds = 1 })
unfolding tick
tick-raises = refl

tick-contended : tick failing (record free { other = true }) ≡ (true, record free { other = true })
unfolding tick
tick-contended = refl

run-twice : run failing ((λ w. w) ∷ (λ w. w) ∷ []) free ≡ record free { rounds = 2 }
unfolding run
run-twice = refl

denied : (w : World) → (failing.try_lock w).0 ≢ some true → (failing.try_lock w).1.held ≡ w.held
denied w h = ground arith

locks : Locks failing
locks = record {
  holds = λ w. w.held;
  acquire_keeps = λ w. refl;
  denied_keeps = λ w h. denied w h;
  unlock_frees = λ w. (refl, refl);
}

tick_releases-tested : ((tick failing free).1.held ≡ false) × ((tick failing free).0 ≡ false)
unfolding locks
tick_releases-tested = tick_releases failing locks free refl

-- Replica 3 works, and replica 5 was refused the lock.
abbrev one : Cluster
one = record { holder = some 3; phase = set_phase 3 working (λ i. outside) }

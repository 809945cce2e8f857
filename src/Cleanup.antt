-- ===== src/Cleanup.antt =====
-- omkit/cleanup.py: the periodic task under an advisory lock. The lock, the connection and the task
-- are operations on a world, which may raise. The replicas of a service are a step relation.
pub mod Exclusion
mod Tests
use omkit_python.Prelude.{
  ℕ, ◌≡◌, ◌≢◌, Bool, true, false, ◌&&◌, Option, none, some, List, [], ◌∷◌, if◌then◌else◌, ◌==◌,
  nat_eq,
}

-- `pool.acquire`, whose Boolean is false if it raises; `pg_try_advisory_lock`, which is `none` if the
-- query raises; the task and `pg_advisory_unlock`, which are false if they raise.
pub record Operations (W : Type 0) : Type 0 where
  pub acquire : W → Bool × W
  pub try_lock : W → Option Bool × W
  pub task : W → Bool × W
  pub unlock : W → Bool × W

module _ {W : Type 0} (o : Operations W) where
  -- The `try` of `_tick`: the lock is given back whether or not the task raised.
  unfoldable pub locked : W → Bool × W
  locked w = let (done, w') = o.task w in let (freed, w'') = o.unlock w' in (done && freed, w'')

  -- `_tick`; the Boolean is false if it raised.
  unfoldable pub tick : W → Bool × W
  unfolding locked
  tick w =
      let (connected, w') = o.acquire w in
      let (answer, w'') = o.try_lock w' in
      if connected
      then elim answer [ none ↦ (false, w'') | some got ↦ if got then locked w'' else (true, w'') ]
      else (false, w')

  -- `run`: an exception of a tick is logged, and the loop sleeps on. What others do meanwhile is a
  -- function on the world.
  unfoldable pub run : List (W → W) → W → W
  unfolding tick
  run [] w = w
  run (sleep ∷ sleeps) w = run sleeps (sleep (tick w).1)

-- Where a replica is in `_tick`: outside, or in its task with the lock.
pub data Phase : Type 0 where
  outside : Phase
  working : Phase

-- The holder of the lock, and the phase of every replica.
pub record Cluster : Type 0 where
  pub holder : Option ℕ
  pub phase : ℕ → Phase

abbrev pub set_phase : ℕ → Phase → (ℕ → Phase) → ℕ → Phase
set_phase i p f j = if i == j then p else f j

-- One replica moves at a time. `pg_try_advisory_lock` grants a lock that no session holds, and a task
-- that returned or raised is followed by the unlock. Sessions are taken to last as long as the task.
pub data Step (s : Cluster) : Cluster → Type 0 where
  granted :
      (i : ℕ)
      → s.holder ≡ none
      → s.phase i ≡ outside
      → Step s (record { holder = some i; phase = set_phase i working s.phase })
  refused : (i j : ℕ) → s.holder ≡ some j → s.phase i ≡ outside → Step s s
  finished :
      (i : ℕ)
      → s.phase i ≡ working
      → Step s (record { holder = none; phase = set_phase i outside s.phase })

pub data Reach : Cluster → Type 0 where
  start : Reach (record { holder = none; phase = λ i. outside })
  next : {s t : Cluster} → Reach s → Step s t → Reach t

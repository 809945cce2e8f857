-- ===== src/Cleanup/Exclusion.antt =====
-- omkit/cleanup.py: the lock is given back, and no two replicas work at the same time.
use omkit_python.Prelude.{
  ℕ, ◌≡◌, ◌≢◌, Bool, true, false, ◌&&◌, none, some, arith, nat_eq, Bool-cases, Option-cases,
}
use omkit_python.Cleanup.{Operations, locked, tick, working, Cluster}

-- The holder is the one replica that works.
pub record IsExclusive (s : Cluster) : Type 0 where
  pub held : (i : ℕ) → s.phase i ≡ working → s.holder ≡ some i
  pub busy : (i : ℕ) → s.holder ≡ some i → s.phase i ≡ working

module _ {W : Type 0} (o : Operations W) where
  -- What is assumed of the lock in one session: nothing but a granted request takes it, and an
  -- unlock, which does not raise, gives it back.
  pub record Locks : Type 0 where
    pub holds : W → Bool
    pub acquire_keeps : (w : W) → holds (o.acquire w).1 ≡ holds w
    pub denied_keeps : (w : W) → (o.try_lock w).0 ≢ some true → holds (o.try_lock w).1 ≡ holds w
    pub unlock_frees : (w : W) → ((o.unlock w).0 ≡ true) × (holds (o.unlock w).1 ≡ false)

  -- A tick leaves the lock free if it was free before, whatever raises: the connection, the request
  -- for the lock, or the task. It raises exactly if one of these did.
  pub tick_releases :
      (k : Locks) (w : W)
      → k.holds w ≡ false
      → (k.holds (tick o w).1 ≡ false)
        × ((tick o w).0 ≡ (
            (o.acquire w).0 && (elim (o.try_lock (o.acquire w).1).0 [
              | none ↦ false
              | some false ↦ true
              | some true ↦ (o.task (o.try_lock (o.acquire w).1).1).0
            ])))
  unfolding tick locked
  tick_releases k w h =
      let w' = (o.acquire w).1 in
      let w'' = (o.try_lock w').1 in
      ground (
        arith,
        h,
        k.acquire_keeps w,
        k.denied_keeps w',
        k.unlock_frees (o.task w'').1,
        Bool-cases (o.acquire w).0,
        Option-cases (o.try_lock w').0,
      )

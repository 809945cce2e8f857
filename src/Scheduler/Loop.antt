-- ===== src/Scheduler/Loop.antt =====
-- omkit/scheduler/scheduler.py: `start`, `stop` and the loop between them. What others do while the
-- loop waits, as a change of the rows, is a function on the world of the services.
use omkit_python.Prelude.{Bool, true, false, List, [], ◌∷◌, if◌then◌else◌, ◌&&◌}
use omkit_python.Prelude.Text.{Text}
use omkit_python.Prelude.Dict.{Dict, is_some}
use omkit_python.Scheduler.{Provider, Services, Setup, State, reconcile}

-- How `wait_for(self._stop_event.wait(), ...)` ends; a cancellation of the task there, after which
-- it returns too, counts as the signal.
pub data Wake (W : Type 0) : Type 0 where
  stop_signaled : Wake W
  timed_out : (meanwhile : W → W) → Wake W

-- Where the task of the loop is: waiting, returned, or ended by what `_reconcile` raised.
pub data Task : Type 0 where
  waiting : Task
  returned : Task
  crashed : Task

-- `start` and `shutdown` of `SchedulerBackend`: the Boolean is `false` if they raise.
pub record Lifecycle (W : Type 0) : Type 0 where
  pub start_backend : W → Bool × W
  pub shutdown_backend : W → Bool × W

module _ {W : Type 0} (s : Services W) (u : Setup) where
  -- `_run_loop`
  unfoldable pub run_loop : List (Wake W) → State s u → State s u × Task
  run_loop [] st = (st, waiting)
  run_loop (stop_signaled ∷ wakes) st = (st, returned)
  run_loop (timed_out meanwhile ∷ wakes) (entries, w) =
      let (st', done) = reconcile s u (entries, meanwhile w) in
      let rest = run_loop wakes st' in if done then rest else (st', crashed)

  -- `start`: the Boolean is `false` if it raised, so that no task is created.
  unfoldable pub start : Lifecycle W → State s u → State s u × Bool
  start l (entries, w) =
      let (done, w') = l.start_backend w in
      if done then reconcile s u (entries, w') else ((entries, w'), false)

  -- `stop` of a task that waits or has ended; what the task raised is dropped.
  unfoldable pub stop : Lifecycle W → State s u → State s u × Bool
  stop l (entries, w) = let (done, w') = l.shutdown_backend w in ((entries, w'), done)

  -- Whether no row makes `derive_cron` raise.
  abbrev pub all_derive : Dict Text Provider → Bool
  all_derive [] = true
  all_derive ((k, p) ∷ ps) = is_some (u.derive_cron p) && all_derive ps

  -- The end of the loop that the event alone decides.
  abbrev pub by_event : List (Wake W) → Task
  by_event [] = waiting
  by_event (stop_signaled ∷ wakes) = returned
  by_event (timed_out meanwhile ∷ wakes) = by_event wakes

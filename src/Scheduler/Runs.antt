-- ===== src/Scheduler/Runs.antt =====
-- omkit/scheduler/scheduler.py: what ends the loop and what it keeps.
use omkit_python.Prelude.{
  ◌≡◌, refl, ◌∙◌, inl, inr, false, some, List, [], ◌∷◌, Bool-cases, Option-cases, arith, All,
}
use omkit_python.Prelude.Text.{Text}
use omkit_python.Prelude.Dict.{Dict, is_some, keys}
use omkit_python.Scheduler.{
  Provider, Entry, Services, Setup, reconcile, converge_row, converge_all, desired_from, stale,
  unregister_all,
}
use omkit_python.Scheduler.Accounts.{Accounts, IsRegistered, same-IsRegistered}
use omkit_python.Scheduler.Registered.{reconcile-IsRegistered}
use omkit_python.Scheduler.Loop.{
  Wake, stop_signaled, timed_out, crashed, Lifecycle, run_loop, start, all_derive,
}

module _ {W : Type 0} (s : Services W) (u : Setup) where
  converge_row-returns :
      (k : Text) (p : Provider) (st : Dict Text Entry × W)
      → (converge_row s u k p st).1 ≡ is_some (u.derive_cron p)
  unfolding converge_row
  converge_row-returns k p st = elim (Option-cases (u.derive_cron p)) [
    | inl raised ↦ rw (raised, converge_row) refl
    | inr (c, h) ↦ rw (h, converge_row) refl
  ]

  converge_all-returns :
      (ps : Dict Text Provider) (st : Dict Text Entry × W)
      → (converge_all s u ps st).1 ≡ all_derive s u ps
  unfolding converge_all
  converge_all-returns [] st = refl
  converge_all-returns ((k, p) ∷ ps) st =
      ground
        (arith, converge_row-returns k p st, converge_all-returns ps (converge_row s u k p st).0)

  reconcile-returns :
      (st : Dict Text Entry × W) (ps : List Provider)
      → (s.fetch_providers u.kind st.1).0 ≡ some ps
      → (reconcile s u st).1 ≡ all_derive s u (desired_from [] ps)
  unfolding reconcile
  reconcile-returns (d, w) ps h =
      let w' = (s.fetch_providers u.kind w).1 in
      let des = desired_from [] ps in
      rw (h, reconcile)
        (converge_all-returns des (unregister_all s u des (stale s u des (keys d)) (d, w')))

  -- If the rows are fetched at a tick and `derive_cron` raises for one of the wanted rows, the loop
  -- has crashed: whatever the later events are, the state is the one that this reconciliation left.
  pub run_loop_crashes :
      (f : W → W) (wakes : List (Wake W)) (st : Dict Text Entry × W) (ps : List Provider)
      → (s.fetch_providers u.kind (f st.1)).0 ≡ some ps
      → all_derive s u (desired_from [] ps) ≡ false
      → run_loop s u (timed_out f ∷ wakes) st ≡ ((reconcile s u (st.0, f st.1)).0, crashed)
  unfolding run_loop
  run_loop_crashes f wakes (d, w) ps h raises =
      rw (reconcile-returns (d, f w) ps h ∙ raises, run_loop) refl

  -- A wait during which others change no registration on the backend.
  abbrev pub Quiet : Accounts s → Wake W → Type 0
  Quiet a stop_signaled = Unit {0}
  Quiet a (timed_out f) = (j : Text) (w : W) → a.live (f w) j ≡ a.live w j

  run_loop-IsRegistered :
      (a : Accounts s) (wakes : List (Wake W)) (st : Dict Text Entry × W)
      → All (Quiet a) wakes
      → IsRegistered s u a st
      → IsRegistered s u a (run_loop s u wakes st).0
  unfolding run_loop
  run_loop-IsRegistered a [] st q r = r
  run_loop-IsRegistered a (stop_signaled ∷ wakes) st q r = r
  run_loop-IsRegistered a (timed_out f ∷ wakes) (d, w) q r =
      let r' =
        reconcile-IsRegistered s u a (d, f w)
          (same-IsRegistered s u a d w (f w) r (λ j. q.0 j w)) in
      elim (Bool-cases (reconcile s u (d, f w)).1) [
        | inl on ↦
            rw (on, run_loop) (run_loop-IsRegistered a wakes (reconcile s u (d, f w)).0 q.1 r')
        | inr raised ↦ rw (raised, run_loop) r'
      ]

  start-IsRegistered :
      (a : Accounts s) (l : Lifecycle W) (st : Dict Text Entry × W)
      → ((j : Text) (w : W) → a.live (l.start_backend w).1 j ≡ a.live w j)
      → IsRegistered s u a st
      → IsRegistered s u a (start s u l st).0
  unfolding start
  start-IsRegistered a l (d, w) keeps r =
      let r' = same-IsRegistered s u a d w (l.start_backend w).1 r (λ j. keeps j w) in
      elim (Bool-cases (l.start_backend w).0) [
        | inl done ↦ rw (done, start) (reconcile-IsRegistered s u a (d, (l.start_backend w).1) r')
        | inr raised ↦ rw (raised, start) r'
      ]

  -- Suppose that the registrations on the backend are exactly those of the entries, each once, as
  -- they are when both are empty, and that starting the backend and what others do during the waits
  -- change no registration. Then the same holds after `start` and any number of rounds of the loop,
  -- whichever calls raise and wherever the loop ends.
  pub service-IsRegistered :
      (a : Accounts s) (l : Lifecycle W) (wakes : List (Wake W)) (st : Dict Text Entry × W)
      → ((j : Text) (w : W) → a.live (l.start_backend w).1 j ≡ a.live w j)
      → All (Quiet a) wakes
      → IsRegistered s u a st
      → IsRegistered s u a (run_loop s u wakes (start s u l st).0).0
  service-IsRegistered a l wakes st keeps q r =
      run_loop-IsRegistered a wakes (start s u l st).0 q (start-IsRegistered a l st keeps r)

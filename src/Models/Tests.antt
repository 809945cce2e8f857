-- ===== src/Models/Tests.antt =====
-- Witnesses and tests for the model lifecycle.
use omkit_python.Prelude.{
  ◌≡◌, ◌++◌, refl, true, false, none, some, List, [], ◌∷◌, All, if◌then◌else◌, ◌==◌,
}
use omkit_python.Prelude.Text.{Text, codes, text_eq, text_beq}
use omkit_python.Prelude.Int.{pos}
use omkit_python.Prelude.Dict.{lookup}
use omkit_python.Models.{
  Lifecycle, new, gave, load_raised, Unload, done, unload_raised, is_loaded, unload, Entry,
  ModelRegistry, sweep, shut_each, unload_all,
}
use omkit_python.Models.Gauge.{
  touches, ensures, unloads, run, loaded, run-gauge, gauge_lost, Action,
}
use omkit_python.Models.Sweep.{sweep_exact, unload_all_done, unload_all_stops}

abbrev history : List Action
history = ensures 1 load_raised ∷ ensures 2 (gave (some 7)) ∷ unloads done ∷ touches 5 ∷ []

gauge-history : (run history new).gauge ≡ loaded (run history new)
gauge-history = run-gauge history (refl, (refl, (refl, (tt, tt))))

abbrev seven : Lifecycle
seven = record { model = some 7; last_used = 10; gauge = 1; load_errors = 0 }

gauge_lost-tested :
    (is_loaded (run (ensures 3 (gave none) ∷ []) (unload unload_raised seven).0) ≡ true)
    × ((run (ensures 3 (gave none) ∷ []) (unload unload_raised seven).0).gauge ≡ 0)
gauge_lost-tested = gauge_lost (ensures 3 (gave none) ∷ []) seven refl (tt, tt)

abbrev entry : Entry
entry = record { lifecycle = seven; idle = 0; shutdown = 0 }

abbrev registry : ModelRegistry
registry = record {
  models = (codes "a", entry) ∷ (codes "b", entry) ∷ [];
  ttl = pos 300;
  reaping = true;
}

abbrev bad_b : Text → Unload
bad_b name = if name == codes "b" then unload_raised else done

abbrev gone : Lifecycle
gone = record seven { model = none; last_used = 0; gauge = 0 }

runs : Unit {0}
unfolding text_beq lookup sweep shut_each unload_all
runs = tt

sweep_exact_example :
    lookup (codes "a") (sweep 310 bad_b registry).models
    ≡ some (record entry { lifecycle = gone; idle = 1 })
unfolding text_beq lookup
sweep_exact_example = sweep_exact 310 bad_b (codes "a") registry

sweep-early : sweep 309 bad_b registry ≡ registry
unfolding runs
sweep-early = refl

unload_all-two :
    ((unload_all (λ n. done) registry).1 ≡ true)
    × ((unload_all (λ n. done) registry).0.reaping ≡ false)
    × All (λ p. is_loaded p.1.lifecycle ≡ false) (unload_all (λ n. done) registry).0.models
unload_all-two = unload_all_done (λ n. done) registry (λ n. refl)

-- The model "c" comes after "b", whose unload raises.
abbrev three : ModelRegistry
three = record registry { models = registry.models ++ ((codes "c", entry) ∷ []) }

unload_all_stops-tested :
    ((unload_all bad_b three).1 ≡ false)
    × ((unload_all bad_b three).0.models
        ≡ (codes "a", record entry { lifecycle = gone; shutdown = 1 })
          ∷ (codes "b", record entry { lifecycle = record seven { gauge = 0 }; shutdown = 1 })
          ∷ (codes "c", entry)
          ∷ [])
unfolding runs
unload_all_stops-tested =
    unload_all_stops bad_b three ((codes "a", entry) ∷ []) ((codes "c", entry) ∷ []) (codes "b")
      entry refl (refl, tt) refl refl

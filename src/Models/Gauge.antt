-- ===== src/Models/Gauge.antt =====
-- omkit/model_lifecycle.py: the gauge `MODEL_LOADED` and the loaded models.
use omkit_python.Prelude.{
  ℕ, ◌≡◌, refl, Bool, true, false, none, some, List, [], ◌∷◌, arith, if◌then◌else◌,
}
use mathlib.Core.Path.{subst⁻¹}
use omkit_python.Prelude.Dict.{is_some}
use omkit_python.Models.{
  Lifecycle, new, Load, gave, load_raised, Unload, done, unload_raised, is_loaded, touch,
  ensure_loaded, unload,
}

-- What is done to a lifecycle.
pub data Action : Type 0 where
  touches : ℕ → Action
  ensures : ℕ → Load → Action
  unloads : Unload → Action

unfoldable pub act : Action → Lifecycle → Lifecycle
unfolding touch ensure_loaded unload
act (touches now) l = touch now l
act (ensures now load) l = (ensure_loaded now load l).0
act (unloads u) l = (unload u l).0

unfoldable pub run : List Action → Lifecycle → Lifecycle
unfolding act
run [] l = l
run (x ∷ xs) l = run xs (act x l)

abbrev pub gives : Load → Bool
gives (gave m) = is_some m
gives load_raised = true

abbrev pub returns : Unload → Bool
returns done = true
returns unload_raised = false

-- `_do_load` gives a model if it returns, and `_do_unload` does not raise.
abbrev pub IsSound : Action → Type 0
IsSound (touches now) = Unit
IsSound (ensures now load) = gives load ≡ true
IsSound (unloads u) = returns u ≡ true

abbrev pub AllSound : List Action → Type 0
AllSound [] = Unit
AllSound (x ∷ xs) = IsSound x × AllSound xs

abbrev pub loaded : Lifecycle → ℕ
loaded l = if is_loaded l then 1 else 0

act-gauge :
    (x : Action) (l : Lifecycle)
    → IsSound x
    → l.gauge ≡ loaded l
    → (act x l).gauge ≡ loaded (act x l)
unfolding act
act-gauge (touches now) l h e = ground arith
act-gauge (ensures now (gave none)) l h e = absurd (ground arith)
act-gauge (ensures now (gave (some m))) l h e = ground arith
act-gauge (ensures now load_raised) l h e = ground arith
act-gauge (unloads done) l h e = ground arith
act-gauge (unloads unload_raised) l h e = absurd (ground arith)

run_from-gauge :
    (xs : List Action) (l : Lifecycle)
    → AllSound xs
    → l.gauge ≡ loaded l
    → (run xs l).gauge ≡ loaded (run xs l)
unfolding run
run_from-gauge [] l h e = e
run_from-gauge (x ∷ xs) l h e = run_from-gauge xs (act x l) h.1 (act-gauge x l h.0 e)

-- Whatever is done to a new lifecycle, as long as every load that returns gives a model and no
-- unload raises, the gauge is 1 while a model is loaded and 0 otherwise.
pub run-gauge : (xs : List Action) → AllSound xs → (run xs new).gauge ≡ loaded (run xs new)
unfolding new
run-gauge xs h = run_from-gauge xs new h (ground arith)

-- Not an unload.
abbrev pub IsUse : Action → Type 0
IsUse (touches now) = Unit
IsUse (ensures now load) = Unit
IsUse (unloads u) = ⊥

abbrev pub AllUses : List Action → Type 0
AllUses [] = Unit
AllUses (x ∷ xs) = IsUse x × AllUses xs

ensure_loaded-touch :
    (now : ℕ) (load : Load) (l : Lifecycle)
    → is_loaded l ≡ true
    → (ensure_loaded now load l).0 ≡ touch now l
unfolding ensure_loaded
ensure_loaded-touch now load l e = ground (arith, e)

uses-gauge :
    (xs : List Action) (l : Lifecycle)
    → AllUses xs
    → is_loaded l ≡ true
    → l.gauge ≡ 0
    → (is_loaded (run xs l) ≡ true) × ((run xs l).gauge ≡ 0)
unfolding run act touch
uses-gauge [] l h e g = (e, g)
uses-gauge (touches now ∷ xs) l h e g = uses-gauge xs (touch now l) h.1 e g
uses-gauge (ensures now load ∷ xs) l h e g =
    subst⁻¹ (λ q. (is_loaded (run xs q) ≡ true) × ((run xs q).gauge ≡ 0))
      (ensure_loaded-touch now load l e) (uses-gauge xs (touch now l) h.1 e g)
uses-gauge (unloads u ∷ xs) l h e g = absurd h.0

-- After an unload that raised, the model is still loaded and the gauge says that it is not, through
-- every later use of the model until the next unload.
pub gauge_lost :
    (xs : List Action) (l : Lifecycle)
    → is_loaded l ≡ true
    → AllUses xs
    → (is_loaded (run xs (unload unload_raised l).0) ≡ true)
      × ((run xs (unload unload_raised l).0).gauge ≡ 0)
unfolding unload
gauge_lost xs l e h = rw (e, unload) (uses-gauge xs (record l { gauge = 0 }) h e refl)

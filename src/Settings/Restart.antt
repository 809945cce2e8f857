-- ===== src/Settings/Restart.antt =====
-- omkit/settings.py: what `stop` leaves to a later `start`.
use omkit_python.Prelude.{
  ℕ, ◌≡◌, refl, inl, inr, Bool, true, false, Option, none, some, List, Option-cases,
}
use omkit_python.Prelude.Text.{Text, Bytes}
use omkit_python.Prelude.Dict.{Dict}
use omkit_python.Json.{Value}
use omkit_python.Settings.{Table}
use omkit_python.Settings.Live.{Setup, Service, ensure_event, backend, stop, start, poll_task}
use omkit_python.Settings.Started.{launch-same}

-- Whether the event `_stop` was made and set.
abbrev pub is_set : Option Bool → Bool
is_set none = false
is_set (some b) = b

module _ (decode : Bytes → Option Text) (loads : Text → Option Value) where
  start-stop_event :
      (u : Setup) (t : Option Table) (d : Option (Dict Text (Value × Bool))) (s : Service)
      → (start decode loads u t d s).0.stop_event ≡ ensure_event s.stop_event
  unfolding start
  start-stop_event u t d s = elim (Option-cases (backend u)) [
    | inl e ↦ rw (e, start) refl
    | inr (b, e) ↦ rw (e, start) (launch-same u b _).1
  ]

  module _ {W : Type 0} (call : ℕ → Value → W → W) where
    -- A manager that was started, which made its event, and stopped, and is started again, loads
    -- the settings once; the loop of its polls returns at once, whatever the waits would bring,
    -- since nothing clears the event.
    pub restart_polls_nothing :
        (u : Setup) (t : Option Table) (d : Option (Dict Text (Value × Bool))) (s : Service)
        (b : Bool)
        → s.stop_event ≡ some b
        → (waits : List (Bool × Option Table)) (w : W)
        → let s' = (start decode loads u t d (stop s)).0 in
          poll_task decode loads call (is_set s'.stop_event) waits s'.manager w
          ≡ ((s'.manager, w), true)
    unfolding stop ensure_event poll_task
    restart_polls_nothing u t d s b e waits w =
        rw (start-stop_event u t d (stop s), e, stop, ensure_event) refl

-- ===== src/Settings/Started.antt =====
-- omkit/settings.py: a manager that starts with the pool has the rows, so that polls keep it up to
-- date from then on.
use omkit_python.Prelude.{
  ℕ, ◌≡◌, refl, inl, inr, Bool, true, Option, some, arith, Option-cases, if◌then◌else◌,
}
use omkit_python.Prelude.Text.{Text, Bytes, text_eq}
use omkit_python.Prelude.Dict.{Dict, lookup}
use omkit_python.Json.{Value}
use omkit_python.Settings.{Table, Manager, load_from_pool, load_from_db}
use omkit_python.Settings.Polling.{picked, latest_of}
use omkit_python.Settings.Live.{Setup, Service, ensure_event, backend, launch, start}

pub launch-same :
    (u : Setup) (b : Text) (s : Service)
    → ((launch u b s).manager ≡ s.manager) × ((launch u b s).stop_event ≡ s.stop_event)
unfolding launch
launch-same u b s = ground arith

module _ (decode : Bytes → Option Text) (loads : Text → Option Value) where
  abbrev LoopEnds : Option ℕ → Text → Table → Manager → Option (Option ℕ) × Manager → Type 0
  LoopEnds l k t m (latest, m') =
      (latest ≡ some (latest_of l t))
      × (lookup k m'.cache ≡ picked decode loads (lookup k t) (lookup k m.cache))
      × (m'.last_seen ≡ m.last_seen)

  pub start-manager :
      (u : Setup) (t : Option Table) (d : Option (Dict Text (Value × Bool))) (s : Service)
      → u.has_pool ≡ true
      → (start decode loads u t d s).0.manager ≡ load_from_pool decode loads t s.manager
  unfolding start
  start-manager u t d s h = elim (Option-cases (backend u)) [
    | inl e ↦ rw (e, start, h) refl
    | inr (b, e) ↦
        let m =
          if u.has_pool
          then load_from_pool decode loads t s.manager
          else load_from_db d s.manager in
        let s' = record s { manager = m; stop_event = ensure_event s.stop_event } in
        ground (arith, e, h, launch-same u b s')
  ]

-- ===== src/Models.antt =====
-- omkit/model_lifecycle.py: `ModelLifecycle` and `ModelRegistry`. A lifecycle's lock is held over
-- the bodies of `ensure_loaded` and `unload`, which makes one step of each; what the loaders of the
-- subclasses do is an argument, and so are the readings of the clock. Each name of the registry has
-- a lifecycle of its own. The metrics are counters beside what they count.
pub mod Gauge
pub mod Sweep
mod Tests
use omkit_python.Prelude.{
  ℕ, suc, ◌+◌, ◌-◌, Bool, true, false, ◌&&◌, Option, none, some, [], ◌∷◌, if◌then◌else◌, leb,
}
use omkit_python.Prelude.Text.{Text, text_eq}
use omkit_python.Prelude.Int.{ℤ, pos, negsuc}
use omkit_python.Prelude.Dict.{Dict, insert, is_some}

pub record Lifecycle : Type 0 where
  pub model : Option ℕ
  pub last_used : ℕ
  -- `MODEL_LOADED` and `MODEL_LOAD_ERRORS` for this model.
  pub gauge : ℕ
  pub load_errors : ℕ

pub new : Lifecycle
new = record { model = none; last_used = 0; gauge = 0; load_errors = 0 }

-- How `_do_load` and `_do_unload` end in the executor.
pub data Load : Type 0 where
  gave : Option ℕ → Load
  load_raised : Load

pub data Unload : Type 0 where
  done : Unload
  unload_raised : Unload

abbrev pub is_loaded : Lifecycle → Bool
is_loaded l = is_some l.model

unfoldable pub touch : ℕ → Lifecycle → Lifecycle
touch now l = record l { last_used = now }

load_with : ℕ → Load → Lifecycle → Lifecycle × Bool
load_with now (gave m) l = (record l { model = m; last_used = now; gauge = 1 }, true)
load_with now load_raised l = (record l { load_errors = l.load_errors + 1 }, false)

-- `now` is the time when the load is over. The Boolean is `false` if it raised.
unfoldable pub ensure_loaded : ℕ → Load → Lifecycle → Lifecycle × Bool
unfolding touch load_with
ensure_loaded now load l = if is_loaded l then (touch now l, true) else load_with now load l

unload_with : Unload → Lifecycle → Lifecycle × Bool
unload_with done l = (record l { model = none; last_used = 0; gauge = 0 }, true)
unload_with unload_raised l = (record l { gauge = 0 }, false)

-- The gauge is set before `_do_unload` runs.
unfoldable pub unload : Unload → Lifecycle → Lifecycle × Bool
unfolding unload_with
unload u l = if is_loaded l then unload_with u l else (l, true)

-- A lifecycle under its name, with the two counters of `MODEL_UNLOAD_TOTAL`.
pub record Entry : Type 0 where
  pub lifecycle : Lifecycle
  pub idle : ℕ
  pub shutdown : ℕ

pub record ModelRegistry : Type 0 where
  pub models : Dict Text Entry
  pub ttl : ℤ
  pub reaping : Bool

unfoldable pub register : Text → Entry → ModelRegistry → ModelRegistry
register name e r = record r { models = insert name e r.models }

unfoldable pub status : Dict Text Entry → Dict Text Bool
status [] = []
status ((name, e) ∷ d) = (name, is_loaded e.lifecycle) ∷ status d

unfoldable pub set_ttl : ℤ → ModelRegistry → ModelRegistry
set_ttl ttl r = record r { ttl = ttl }

-- A reaper that runs is cancelled before the new one starts.
unfoldable pub start_reaper : ℤ → ModelRegistry → ModelRegistry
start_reaper ttl r = record r { ttl = ttl; reaping = true }

unfoldable pub stop_reaper : ModelRegistry → ModelRegistry
stop_reaper r = record r { reaping = false }

-- The body of the loop of `unload_all`; `false` if the unload raised.
unfoldable pub shut : Unload → Entry → Entry × Bool
unfolding unload
shut u e =
    if is_loaded e.lifecycle
    then (let (l, returned) = unload u e.lifecycle in
        (record e { lifecycle = l; shutdown = e.shutdown + 1 }, returned))
    else (e, true)

-- The loop, over a dict that no other task changes meanwhile: an exception ends it.
unfoldable pub shut_each : (Text → Unload) → Dict Text Entry → Dict Text Entry × Bool
unfolding shut
shut_each u [] = ([], true)
shut_each u ((name, e) ∷ d) =
    let (e', returned) = shut (u name) e in
    let (d', all) = shut_each u d in
    if returned then ((name, e') ∷ d', all) else ((name, e') ∷ d, false)

unfoldable pub unload_all : (Text → Unload) → ModelRegistry → ModelRegistry × Bool
unfolding stop_reaper shut_each
unload_all u r =
    let (d, returned) = shut_each u r.models in (record (stop_reaper r) { models = d }, returned)

-- The body of the loop of `_reap_loop`, in which an exception is only logged.
unfoldable pub reap : (now ttl : ℕ) → Unload → Entry → Entry
unfolding unload
reap now ttl u e =
    if is_loaded e.lifecycle && leb ttl (now - e.lifecycle.last_used)
    then record e { lifecycle = (unload u e.lifecycle).0; idle = e.idle + 1 }
    else e

unfoldable pub reap_each : (now ttl : ℕ) → (Text → Unload) → Dict Text Entry → Dict Text Entry
unfolding reap
reap_each now ttl u [] = []
reap_each now ttl u ((name, e) ∷ d) = (name, reap now ttl (u name) e) ∷ reap_each now ttl u d

-- One round of `_reap_loop`: a ttl of zero or less turns it off.
unfoldable pub sweep : ℕ → (Text → Unload) → ModelRegistry → ModelRegistry
unfolding reap_each
sweep now u r = elim r.ttl [
  | pos (suc t) ↦ record r { models = reap_each now (suc t) u r.models }
  | _ ↦ r
]

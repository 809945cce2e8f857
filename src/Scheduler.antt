-- ===== src/Scheduler.antt =====
-- omkit/scheduler/scheduler.py and omkit/scheduler/types.py: the loop that makes the entries
-- registered on a cron backend follow the rows of the providers table. The backend, the source of
-- the rows and the enqueuer are a parameter: operations on a world of their own, each of which may
-- raise. So are the callback `derive_cron`, SHA-256, and what the envelope needs.
pub mod Accounts
pub mod Registered
pub mod Target
pub mod Converges
pub mod Hash
pub mod Loop
pub mod Source
pub mod Runs
mod Tests
pub mod Stable
use omkit_python.Prelude.{
  ℕ, ◌≡◌, Bool, true, false, not, Option, none, some, List, [], ◌∷◌, ◌++◌, if◌then◌else◌, ◌==◌,
}
use omkit_python.Prelude.Text.{Text, Bytes, codes, text_eq, utf8}
use omkit_python.Prelude.Exceptions.{Result, ok, raise}
use omkit_python.Prelude.Dict.{Dict, lookup, insert, erase, is_some, contains, keys}
use omkit_python.Json.{Value, str, obj, Fields, end, field, Style, dumps}
use omkit_python.Jobqueue.Envelope.{Coercions, Error, wrap}

pub record Provider : Type 0 where
  pub tenant_id : Text
  pub name : Text
  pub config : Fields

-- `_RegisteredEntry`
pub record Entry : Type 0 where
  pub entry_id : Text
  pub hash : Text
  pub cronspec : Text

-- `ProviderSource`, `SchedulerBackend` and `Enqueuer`: `none` and `false` stand for a raise.
pub record Services (W : Type 0) : Type 0 where
  pub fetch_providers : Text → W → Option (List Provider) × W
  pub register : (cronspec task_type : Text) (body : Bytes) (queue : Text) → W → Option Text × W
  pub unregister : Text → W → Bool × W
  pub enqueue : (task_type tenant_id : Text) (payload : Fields) (queue : Text) → W → Bool × W

-- The arguments of `Scheduler`. `derive_cron` is `none` where the callback raises.
pub record Setup : Type 0 where
  pub kind : Text
  pub queue : Text
  pub task_type : Text
  pub derive_cron : Provider → Option (Text × Bool)
  pub has_enqueuer : Bool
  pub sha256_hex : Bytes → Text
  pub is_uuid : Text → Bool
  pub coercions : Coercions

-- `_key`
pub key : Text → Text → Text
key tenant name = tenant ++ (b':' ∷ name)

-- `json.dumps(cfg, sort_keys=True)`, with the separators `", "` and `": "`, or `","` and `":"`.
abbrev sorted_plain : Style
sorted_plain = record { item_separator = codes ", "; key_separator = codes ": "; sort_keys = true }

abbrev pub canonical : Style
canonical = record { item_separator = codes ","; key_separator = codes ":"; sort_keys = true }

-- `_build_payload`. A config is a JSON object, so that `json.dumps` does not raise.
unfoldable pub build_payload : Provider → Fields
build_payload p =
    field (codes "provider_name") (str p.name)
      (field (codes "config") (str (dumps sorted_plain (obj p.config))) end)

-- What `_config_hash` feeds to SHA-256.
unfoldable pub hash_input : Text → Fields → Bytes
hash_input cronspec cfg = utf8 cronspec ++ (0 ∷ utf8 (dumps canonical (obj cfg)))

-- `desired`: a later row with the same key takes the place of an earlier one.
unfoldable pub desired_from : Dict Text Provider → List Provider → Dict Text Provider
desired_from d [] = d
desired_from d (p ∷ ps) = desired_from (insert (key p.tenant_id p.name) p d) ps

module _ {W : Type 0} (s : Services W) (u : Setup) where
  abbrev pub config_hash : Text → Fields → Text
  config_hash cronspec cfg = u.sha256_hex (hash_input cronspec cfg)

  -- `self._entries` and the world of the services.
  abbrev pub State : Type 0
  State = Dict Text Entry × W

  unfoldable pub submit : Text → Result Error Bytes → W → Option Text × W
  submit cronspec (ok body) w = s.register cronspec u.task_type body u.queue w
  submit cronspec (raise x) w = (none, w)

  -- `_register_one`: `wrap` may raise before the backend is called.
  unfoldable pub register_one : Provider → Text → W → Option Text × W
  unfolding build_payload submit
  register_one p cronspec =
      submit cronspec (wrap u.is_uuid u.coercions p.tenant_id (build_payload p) [])

  unfoldable pub unregister_stale : Dict Text Provider → Text → State → State
  unregister_stale desired k (entries, w) = elim (lookup k entries) [
    | none ↦ (entries, w)
    | some ent ↦
        let (done, w') = s.unregister ent.entry_id w in
        (if done then erase k entries else entries, w')
  ]

  -- `stale`, of the keys of the entries.
  unfoldable pub stale : Dict Text Provider → List Text → List Text
  stale desired [] = []
  stale desired (k ∷ ks) =
      let rest = stale desired ks in if contains k desired then rest else k ∷ rest

  unfoldable pub unregister_all : Dict Text Provider → List Text → State → State
  unfolding unregister_stale
  unregister_all desired [] st = st
  unregister_all desired (k ∷ ks) st = unregister_all desired ks (unregister_stale desired k st)

  -- The enqueue after a registration, whose failure is only logged.
  unfoldable pub enqueue_now : Provider → W → W
  unfolding build_payload
  enqueue_now p w =
      if u.has_enqueuer
      then (s.enqueue u.task_type p.tenant_id (build_payload p) u.queue w).1
      else w

  -- What follows the registration: a new entry and an enqueue, unless it raised.
  unfoldable pub enter : Text → Provider → Text → Dict Text Entry → Option Text × W → State
  unfolding enqueue_now
  enter k p cronspec entries (none, w) = (entries, w)
  enter k p cronspec entries (some entry_id, w) =
      let e : Entry = record {
        entry_id = entry_id;
        hash = config_hash cronspec p.config;
        cronspec = cronspec;
      } in
      (insert k e entries, enqueue_now p w)

  unfoldable pub register_fresh : Text → Provider → Text → State → State
  unfolding register_one enter
  register_fresh k p cronspec (entries, w) = enter k p cronspec entries (register_one p cronspec w)

  -- A row whose entry has another hash: the entry goes before a new one is registered.
  unfoldable pub reregister : Text → Provider → Text → Entry → State → State
  unfolding register_fresh
  reregister k p cronspec existing (entries, w) =
      let (done, w') = s.unregister existing.entry_id w in
      if done then register_fresh k p cronspec (erase k entries, w') else (entries, w')

  unfoldable pub converge_entry : Text → Provider → Text → State → State
  unfolding register_fresh reregister
  converge_entry k p cronspec (entries, w) = elim (lookup k entries) [
    | none ↦ register_fresh k p cronspec (entries, w)
    | some existing ↦
        if existing.hash == config_hash cronspec p.config
        then (entries, w)
        else reregister k p cronspec existing (entries, w)
  ]

  -- The body of the second loop; `false` if the callback raised.
  unfoldable pub converge_row : Text → Provider → State → State × Bool
  unfolding converge_entry
  converge_row k p st = elim (u.derive_cron p) [
    | none ↦ (st, false)
    | some (cronspec, accepted) ↦ (if accepted then converge_entry k p cronspec st else st, true)
  ]

  unfoldable pub converge_all : Dict Text Provider → State → State × Bool
  unfolding converge_row
  converge_all [] st = (st, true)
  converge_all ((k, p) ∷ ps) st =
      let (st', returned) = converge_row k p st in
      let rest = converge_all ps st' in if returned then rest else (st', false)

  -- `_reconcile`; the Boolean is `false` if it raised.
  unfoldable pub reconcile : State → State × Bool
  unfolding stale unregister_all converge_all desired_from
  reconcile (entries, w) =
      let (rows, w') = s.fetch_providers u.kind w in
      elim rows [
        | none ↦ ((entries, w'), true)
        | some ps ↦
            let desired = desired_from [] ps in
            converge_all desired
              (unregister_all desired (stale desired (keys entries)) (entries, w'))
      ]

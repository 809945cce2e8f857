-- ===== src/Registry.antt =====
-- omkit/provider/registry.py: `ProviderRegistry`, one asyncio task per provider. The state has the
-- dict `_tasks`, in which a task is a number, and the tasks that the event loop still runs, each
-- with the key that it was started under. What ends while a method awaits is a list of endings, an
-- argument. The callback of a task counts as part of its end. The parameters are the classes of the
-- providers: whether a name has one, and whether its constructor raises.
pub mod Tracked
pub mod Once
pub mod Follows
pub mod Watch
pub mod Shutdown
pub mod Reconnect
mod Tests
use omkit_python.Prelude.{
  ℕ, suc, Bool, true, false, not, Option, none, some, List, [], ◌∷◌, ◌++◌, if◌then◌else◌, ltb,
  length, elem, nat_eq,
}
use omkit_python.Prelude.Text.{Text, text_eq, starts_with}
use omkit_python.Prelude.Dict.{Dict, lookup, insert, erase, contains, keys}
use omkit_python.Json.{Fields}

pub record Row : Type 0 where
  pub tenant_id : Text
  pub name : Text
  pub config : Fields

pub record Registry : Type 0 where
  pub tasks : Dict Text ℕ
  pub running : Dict ℕ Text
  pub next : ℕ
  pub table_missing : Bool

-- `f"{tenant_id}:{name}"`
unfoldable pub key : Text → Text → Text
key tenant_id name = tenant_id ++ (b':' ∷ name)

-- How a task ends.
pub data Ending : Type 0 where
  cancelled finished crashed : Ending

-- `_on_task_done`, on the dict.
unfoldable pub on_task_done : Text → Ending → Dict Text ℕ → Dict Text ℕ
on_task_done k cancelled ts = ts
on_task_done k finished ts = ts
on_task_done k crashed ts = erase k ts

unfoldable pub ends : ℕ → Ending → Registry → Registry
unfolding on_task_done
ends i how r = elim (lookup i r.running) [
  | none ↦ r
  | some k ↦ record r { running = erase i r.running; tasks = on_task_done k how r.tasks }
]

-- An await, in which tasks end.
unfoldable pub await : List (ℕ × Ending) → Registry → Registry
unfolding ends
await [] r = r
await ((i, how) ∷ es) r = await es (ends i how r)

-- One round of the loop of `_cancel_tasks`. A task that runs is cancelled; `gather` waits for it.
unfoldable pub cancel : Text → Registry → Registry
cancel k r = elim (lookup k r.tasks) [
  | none ↦ r
  | some i ↦ record r { tasks = erase k r.tasks; running = erase i r.running }
]

unfoldable pub cancel_each : List Text → Registry → Registry
unfolding cancel
cancel_each [] r = r
cancel_each (k ∷ ks) r = cancel_each ks (cancel k r)

unfoldable pub cancel_tasks : List (ℕ × Ending) → List Text → Registry → Registry
unfolding cancel_each await
cancel_tasks es ks r = await es (cancel_each ks r)

-- How the query of `_fetch_providers` ends.
pub data Answer : Type 0 where
  rows : List Row → Answer
  undefined_table failed : Answer

-- `_fetch_providers`: `none` where it raises.
unfoldable pub fetch_providers : Answer → Registry → Option (List Row) × Registry
fetch_providers (rows l) r = (some l, record r { table_missing = false })
fetch_providers undefined_table r = (some [], record r { table_missing = true })
fetch_providers failed r = (none, r)

unfoldable pub desired_from : Dict Text Row → List Row → Dict Text Row
unfolding key
desired_from d [] = d
desired_from d (p ∷ ps) = desired_from (insert (key p.tenant_id p.name) p d) ps

-- `list(current - desired_keys)`
unfoldable pub undesired : Dict Text Row → List Text → List Text
undesired d [] = []
undesired d (k ∷ ks) = let rest = undesired d ks in if contains k d then rest else k ∷ rest

-- `k.startswith(f"{tenant_id}:")`
unfoldable pub keys_of_tenant : Text → List Text → List Text
keys_of_tenant tenant_id [] = []
keys_of_tenant tenant_id (k ∷ ks) =
    let rest = keys_of_tenant tenant_id ks in
    if starts_with (tenant_id ++ (b':' ∷ [])) k then k ∷ rest else rest

module _ (known : Text → Bool) (constructs : Row → Bool) where
  -- `_start_task`; the Boolean is `false` if its assertion or the constructor raised.
  unfoldable pub start_task : Row → Registry → Registry × Bool
  unfolding key
  start_task p r =
      let k = key p.tenant_id p.name in
      if not (known p.name)
      then (r, true)
      else if contains k r.tasks
      then (r, false)
      else if constructs p
      then (
        record r {
          tasks = insert k r.next r.tasks;
          running = insert r.next k r.running;
          next = suc r.next;
        },
        true,
      )
      else (r, false)

  unfoldable pub start_each : List Row → Registry → Registry × Bool
  unfolding start_task
  start_each [] r = (r, true)
  start_each (p ∷ ps) r =
      let (r', returned) = start_task p r in
      let rest = start_each ps r' in if returned then rest else (r', false)

  -- The second loop of `_reconcile_all`, over `desired_keys - current`, in the order of the rows.
  unfoldable pub start_missing : Dict Text Row → List Text → Registry → Registry × Bool
  unfolding start_task
  start_missing [] current r = (r, true)
  start_missing ((k, p) ∷ d) current r =
      let (r', returned) = if elem k current then (r, true) else start_task p r in
      let rest = start_missing d current r' in if returned then rest else (r', false)

  unfoldable pub reconcile_all :
      Answer → (fetching cancelling : List (ℕ × Ending)) → Registry → Registry × Bool
  unfolding fetch_providers await desired_from undesired cancel_tasks start_missing
  reconcile_all answer fetching cancelling r =
      let (found, r') = fetch_providers answer (await fetching r) in
      elim found [
        | none ↦ (r', false)
        | some l ↦
            let desired = desired_from [] l in
            let current = keys r'.tasks in
            start_missing desired current (cancel_tasks cancelling (undesired desired current) r')
      ]

  unfoldable pub reload_tenant :
      Text → Answer → (cancelling fetching : List (ℕ × Ending)) → Registry → Registry × Bool
  unfolding fetch_providers await keys_of_tenant cancel_tasks start_each
  reload_tenant tenant_id answer cancelling fetching r =
      if ltb (length tenant_id) 36
      then (r, true)
      else (let r' = cancel_tasks cancelling (keys_of_tenant tenant_id (keys r.tasks)) r in
          let (found, r'') = fetch_providers answer (await fetching r') in
          elim found [ none ↦ (r'', false) | some l ↦ start_each l r'' ])

  -- `start`: a database that cannot be reached counts as having no rows.
  unfoldable pub start : Answer → List (ℕ × Ending) → Registry → Registry × Bool
  unfolding fetch_providers await start_each
  start answer fetching r =
      let (found, r') = fetch_providers answer (await fetching r) in
      elim found [ none ↦ (r', true) | some l ↦ start_each l r' ]

-- The end of `stop`.
unfoldable pub stop : List (ℕ × Ending) → Registry → Registry
unfolding cancel_tasks
stop cancelling r = cancel_tasks cancelling (keys r.tasks) r

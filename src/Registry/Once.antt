-- ===== src/Registry/Once.antt =====
-- omkit/provider/registry.py: the runs of a registry, and that no provider is run twice in any.
use omkit_python.Prelude.{
  ℕ, ◌≡◌, inl, inr, Bool, false, some, List, [], arith, Option-cases, Bool-cases, ltb, length,
  nat_eq,
}
use omkit_python.Prelude.Text.{Text, text_eq}
use omkit_python.Prelude.Dict.{lookup, keys}
use omkit_python.Registry.{
  Row, Registry, Ending, Answer, ends, await, cancel_tasks, fetch_providers, reconcile_all,
  reload_tenant, start, stop, desired_from, undesired, keys_of_tenant,
}
use omkit_python.Registry.Tracked.{
  IsTracked, ends-IsTracked, await-IsTracked, cancel_tasks-IsTracked, fetch_providers-IsTracked,
  start_each-IsTracked, start_missing-IsTracked,
}

abbrev pub new : Registry
new = record { tasks = []; running = []; next = 0; table_missing = false }

pub stop-IsTracked : (es : List (ℕ × Ending)) (r : Registry) → IsTracked r → IsTracked (stop es r)
unfolding stop
stop-IsTracked es r v = cancel_tasks-IsTracked es (keys r.tasks) r v

module _ (known : Text → Bool) (constructs : Row → Bool) where
  start-IsTracked :
      (a : Answer) (es : List (ℕ × Ending)) (r : Registry)
      → IsTracked r
      → IsTracked (start known constructs a es r).0
  unfolding start
  start-IsTracked a es r v =
      let q = fetch_providers a (await es r) in
      let v' = fetch_providers-IsTracked a (await es r) (await-IsTracked es r v) in
      elim (Option-cases q.0) [
        | inl e ↦ rw (e, start) v'
        | inr (l, e) ↦ rw (e, start) (start_each-IsTracked known constructs l q.1 v')
      ]

  reload_tenant-IsTracked :
      (t : Text) (a : Answer) (es es' : List (ℕ × Ending)) (r : Registry)
      → IsTracked r
      → IsTracked (reload_tenant known constructs t a es es' r).0
  unfolding reload_tenant
  reload_tenant-IsTracked t a es es' r v = elim (Bool-cases (ltb (length t) 36)) [
    | inl short ↦ rw (short, reload_tenant) v
    | inr long ↦
        let r' = cancel_tasks es (keys_of_tenant t (keys r.tasks)) r in
        let q = fetch_providers a (await es' r') in
        let v' = fetch_providers-IsTracked a (await es' r') (
          await-IsTracked es' r'
            (cancel_tasks-IsTracked es (keys_of_tenant t (keys r.tasks)) r v)) in
        elim (Option-cases q.0) [
          | inl e ↦ rw (long, reload_tenant, e) v'
          | inr (l, e) ↦
              rw (long, reload_tenant, e) (start_each-IsTracked known constructs l q.1 v')
        ]
  ]

  reconcile_all-IsTracked :
      (a : Answer) (es es' : List (ℕ × Ending)) (r : Registry)
      → IsTracked r
      → IsTracked (reconcile_all known constructs a es es' r).0
  unfolding reconcile_all
  reconcile_all-IsTracked a es es' r v =
      let q = fetch_providers a (await es r) in
      let v' = fetch_providers-IsTracked a (await es r) (await-IsTracked es r v) in
      elim (Option-cases q.0) [
        | inl e ↦ rw (e, reconcile_all) v'
        | inr (l, e) ↦
            rw (e, reconcile_all)
              (start_missing-IsTracked known constructs (desired_from [] l) (keys q.1.tasks) _ (
                cancel_tasks-IsTracked es' (undesired (desired_from [] l) (keys q.1.tasks)) q.1 v'))
      ]

  -- What happens to a registry, one method or end of a task at a time.
  pub data Step : Registry → Registry → Type 0 where
    ending : (r : Registry) (i : ℕ) (how : Ending) → Step r (ends i how r)
    starts :
        (r : Registry) (a : Answer) (es : List (ℕ × Ending))
        → Step r (start known constructs a es r).0
    reconciles :
        (r : Registry) (a : Answer) (es es' : List (ℕ × Ending))
        → Step r (reconcile_all known constructs a es es' r).0
    reloads :
        (r : Registry) (t : Text) (a : Answer) (es es' : List (ℕ × Ending))
        → Step r (reload_tenant known constructs t a es es' r).0
    stops : (r : Registry) (es : List (ℕ × Ending)) → Step r (stop es r)

  pub data Reach : Registry → Type 0 where
    fresh : Reach new
    next : {r r' : Registry} → Reach r → Step r r' → Reach r'

  Step-IsTracked : {r r' : Registry} → Step r r' → IsTracked r → IsTracked r'
  Step-IsTracked (ending r i how) v = ends-IsTracked i how r v
  Step-IsTracked (starts r a es) v = start-IsTracked a es r v
  Step-IsTracked (reconciles r a es es') v = reconcile_all-IsTracked a es es' r v
  Step-IsTracked (reloads r t a es es') v = reload_tenant-IsTracked t a es es' r v
  Step-IsTracked (stops r es) v = stop-IsTracked es r v

  pub Reach-IsTracked : {r : Registry} → Reach r → IsTracked r
  unfolding lookup
  Reach-IsTracked fresh = record {
    tracked = λ i k h. absurd (ground arith);
    below = λ i k h. absurd (ground arith);
    apart = λ i j k h h'. absurd (ground arith);
  }
  Reach-IsTracked (Reach.next s t) = Step-IsTracked t (Reach-IsTracked s)

  -- In every state that a new registry can reach by starts, reconciliations, reloads of a tenant,
  -- stops and ends of tasks, whatever these answer or raise, two running tasks of one key are the
  -- same task, and it is the one that `_tasks` has for the key.
  pub runs_once :
      {r : Registry} (i j : ℕ) (k : Text)
      → Reach r
      → lookup i r.running ≡ some k
      → lookup j r.running ≡ some k
      → (i ≡ j) × (lookup k r.tasks ≡ some i)
  runs_once i j k s h h' =
      let v = Reach-IsTracked s in ground (arith, v.tracked i k h, v.tracked j k h')

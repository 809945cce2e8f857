-- ===== src/Registry/Shutdown.antt =====
-- omkit/provider/registry.py: what the loops keep, and what a stop leaves.
use omkit_python.Prelude.{
  ℕ, ◌≡◌, ◌⊎◌, refl, inl, inr, Bool, none, some, List, [], ◌∷◌, arith, Option-cases, Bool-cases,
  nat_eq,
}
use omkit_python.Prelude.Text.{Text, text_eq}
use omkit_python.Prelude.Dict.{lookup, lookup-erase, keys, contains-keys}
use omkit_python.Registry.{
  Row, Registry, Ending, cancelled, finished, crashed, Answer, on_task_done, ends, await,
  cancel_each, cancel_tasks, reconcile_all, reload_tenant, start, stop,
}
use omkit_python.Registry.Once.{
  Reach, next, ending, starts, reconciles, reloads, stops, new, fresh, Reach-IsTracked, runs_once,
}
use omkit_python.Registry.Follows.{cancel_each-lookup}
use omkit_python.Registry.Watch.{
  Poll, Event, meanwhile, other, pmessage, End, closed, lost, abandoned, Attempt, unreachable,
  subscribed, ended, Then, again, leave, sleep, disconnected, poll_rounds, last_part, listen,
  attempt, watch, first_backoff,
}

ends-lookup :
    (i : ℕ) (how : Ending) (k : Text) (r : Registry)
    → lookup k r.tasks ≡ none
    → lookup k (ends i how r).tasks ≡ none
unfolding ends on_task_done
ends-lookup i cancelled k r h = ground arith
ends-lookup i finished k r h = ground arith
ends-lookup i crashed k r h = elim (Option-cases (lookup i r.running)) [
  | inl e ↦ rw (e, ends) h
  | inr (j, e) ↦ rw (e, ends, on_task_done) (ground (arith, h, lookup-erase j k r.tasks))
]

await-lookup :
    (es : List (ℕ × Ending)) (k : Text) (r : Registry)
    → lookup k r.tasks ≡ none
    → lookup k (await es r).tasks ≡ none
unfolding await
await-lookup [] k r h = h
await-lookup ((i, how) ∷ es) k r h = await-lookup es k (ends i how r) (ends-lookup i how k r h)

stop-lookup : (es : List (ℕ × Ending)) (k : Text) (r : Registry) → lookup k (stop es r).tasks ≡ none
unfolding stop cancel_tasks
stop-lookup es k r =
    await-lookup es k (cancel_each (keys r.tasks) r)
      (ground (arith, cancel_each-lookup (keys r.tasks) k r, contains-keys k r.tasks))

pub Then-cases : (t : Then) → (t ≡ again) ⊎ ((t ≡ leave) ⊎ ((n : ℕ) × (t ≡ sleep n)))
Then-cases again = inl refl
Then-cases leave = inr (inl refl)
Then-cases (sleep n) = inr (inr (n, refl))

abbrev pub Rounds : Type 0
Rounds = List (Attempt × List (ℕ × Ending))

module _ (known : Text → Bool) (constructs : Row → Bool) where
  abbrev Reaches : Registry → Type 0
  Reaches = Reach known constructs

  await-Reach : (es : List (ℕ × Ending)) (r : Registry) → Reaches r → Reaches (await es r)
  unfolding await
  await-Reach [] r s = s
  await-Reach ((i, how) ∷ es) r s = await-Reach es (ends i how r) (next s (ending r i how))

  stopped-none :
      (es : List (ℕ × Ending)) (i : ℕ) (r : Registry)
      → Reaches r
      → lookup i (stop es r).running ≡ none
  stopped-none es i r s = elim (Option-cases (lookup i (stop es r).running)) [
    | inl e ↦ e
    | inr (k, e) ↦
        let v = Reach-IsTracked known constructs (next s (stops r es)) in
        absurd (ground (arith, v.tracked i k e, stop-lookup es k r))
  ]

  poll_rounds-Reach :
      (ps : List Poll) (r : Registry) → Reaches r → Reaches (poll_rounds known constructs ps r).0
  unfolding poll_rounds
  poll_rounds-Reach [] r s = s
  poll_rounds-Reach (p ∷ ps) r s =
      let s' = await-Reach p.waiting r s in
      elim (Bool-cases p.stopped) [
        | inl e ↦ rw (e, poll_rounds) s'
        | inr e ↦
            rw (e, poll_rounds)
              (poll_rounds-Reach ps _ (next s' (reconciles _ p.answer p.fetching p.cancelling)))
      ]

  listen-Reach :
      (ms : List Event) (r : Registry) → Reaches r → Reaches (listen known constructs ms r).0
  unfolding listen
  listen-Reach [] r s = s
  listen-Reach (meanwhile es ∷ ms) r s = listen-Reach ms (await es r) (await-Reach es r s)
  listen-Reach (other ∷ ms) r s = listen-Reach ms r s
  listen-Reach (pmessage none a es es' ∷ ms) r s = s
  listen-Reach (pmessage (some c) a es es' ∷ ms) r s =
      let q = reload_tenant known constructs (last_part [] c) a es es' r in
      let s' : Reaches q.0 = next s (reloads r (last_part [] c) a es es') in
      elim (Bool-cases q.1) [
        | inl e ↦ rw (e, listen) (listen-Reach ms q.0 s')
        | inr e ↦ rw (e, listen) s'
      ]

  ended-Reach : (e : End) (r : Registry) → Reaches r → Reaches (ended e r).0
  unfolding ended disconnected
  ended-Reach closed r s = s
  ended-Reach lost r s = s
  ended-Reach abandoned r s = s

  attempt-Reach :
      (a : Attempt) (b : ℕ) (r : Registry) → Reaches r → Reaches (attempt known constructs a b r).0
  unfolding attempt disconnected
  attempt-Reach unreachable b r s = s
  attempt-Reach (subscribed a es es' ms e) b r s =
      let q = reconcile_all known constructs a es es' r in
      let l = listen known constructs ms q.0 in
      let s' : Reaches q.0 = next s (reconciles r a es es') in
      let s'' = listen-Reach ms q.0 s' in
      elim (Bool-cases q.1) [
        | inr failed ↦ rw (failed, attempt) s'
        | inl done ↦ elim (Bool-cases l.1) [
          | inr failed ↦ rw (done, attempt, failed) s''
          | inl heard ↦ rw (done, attempt, heard) (ended-Reach e l.0 s'')
        ]
      ]

  watch-Reach :
      (rounds : Rounds) (b : ℕ) (r : Registry)
      → Reaches r
      → Reaches (watch known constructs rounds b r).registry
  unfolding watch
  watch-Reach [] b r s = s
  watch-Reach ((a, es) ∷ rounds) b r s =
      let q = attempt known constructs a b r in
      let s' = attempt-Reach a b r s in
      let rest = watch-Reach rounds q.1.0 (await es q.0) (await-Reach es q.0 s') in
      elim (Then-cases q.1.1) [
        | inl e ↦ rw (e, watch) rest
        | inr (inl e) ↦ rw (e, watch) s'
        | inr (inr (n, e)) ↦ rw (e, watch) rest
      ]

  abbrev pub looped : List Poll ⊎ Rounds → Registry → Registry
  looped (inl polls) r = (poll_rounds known constructs polls r).0
  looped (inr rounds) r = (watch known constructs rounds first_backoff r).registry

  looped-Reach : (l : List Poll ⊎ Rounds) (r : Registry) → Reaches r → Reaches (looped l r)
  looped-Reach (inl polls) r s = poll_rounds-Reach polls r s
  looped-Reach (inr rounds) r s = watch-Reach rounds first_backoff r s

  -- Let a registry start, let one of its two loops go through any rounds, with whatever polls,
  -- messages, answers, exceptions and ends of tasks, and stop it: then no task of a provider runs.
  -- Until then two running tasks of one key are the same task.
  pub stop_leaves_none :
      (a : Answer) (es es' : List (ℕ × Ending)) (loop : List Poll ⊎ Rounds)
      → let r = looped loop (start known constructs a es new).0 in
        ((i : ℕ) → lookup i (stop es' r).running ≡ none)
        × ((i j : ℕ) (k : Text) → lookup i r.running ≡ some k → lookup j r.running ≡ some k → i ≡ j)
  stop_leaves_none a es es' loop =
      let s = looped-Reach loop _ (next fresh (starts new a es)) in
      (λ i. stopped-none es' i _ s, λ i j k h h'. (runs_once known constructs i j k s h h').0)

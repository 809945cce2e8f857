-- ===== src/Registry/Tracked.antt =====
-- omkit/provider/registry.py: a task that runs is the one that `_tasks` has under its key, so that
-- no provider is run twice.
use omkit_python.Prelude.{
  ℕ, suc, ◌<◌, ◌≡◌, inl, inr, Bool, none, some, List, [], ◌∷◌, arith, Option-cases, Bool-cases,
  elem, nat_eq, eqb_iff,
}
use omkit_python.Prelude.Text.{Text, text_eq, text_beq_iff}
use omkit_python.Prelude.Dict.{Dict, lookup, insert, erase, lookup-insert, lookup-erase}
use omkit_python.Registry.{
  Row, Registry, Ending, cancelled, finished, crashed, Answer, rows, undefined_table, failed, key,
  on_task_done, ends, await, cancel, cancel_each, cancel_tasks, fetch_providers, start_task,
  start_each, start_missing,
}

pub record IsTracked (r : Registry) : Type 0 where
  pub tracked : (i : ℕ) (k : Text) → lookup i r.running ≡ some k → lookup k r.tasks ≡ some i
  pub below : (i : ℕ) (k : Text) → lookup k r.tasks ≡ some i → i < r.next
  pub apart : (i : ℕ) (j k : Text) → lookup j r.tasks ≡ some i → lookup k r.tasks ≡ some i → j ≡ k

-- A task that no longer runs, and a key that is taken out.
erase-IsTracked :
    (i : ℕ) (k : Text) (r : Registry)
    → IsTracked r
    → lookup k r.tasks ≡ some i
    → IsTracked (record r { tasks = erase k r.tasks; running = erase i r.running })
erase-IsTracked i k r v e = record {
  tracked = λ j l h. ground (
    arith,
    h,
    lookup-erase i j r.running,
    lookup-erase k l r.tasks,
    v.tracked j l,
    eqb_iff i j,
    text_beq_iff k l,
    e,
  );
  below = λ j l h. v.below j l (ground (arith, h, lookup-erase k l r.tasks));
  apart = λ j l m h h'.
      v.apart j l m (ground (arith, h, lookup-erase k l r.tasks))
        (ground (arith, h', lookup-erase k m r.tasks));
}

ended-IsTracked :
    (i : ℕ) (r : Registry) → IsTracked r → IsTracked (record r { running = erase i r.running })
ended-IsTracked i r v = record {
  tracked = λ j l h. v.tracked j l (ground (arith, h, lookup-erase i j r.running));
  below = v.below;
  apart = v.apart;
}

pub ends-IsTracked : (i : ℕ) (how : Ending) (r : Registry) → IsTracked r → IsTracked (ends i how r)
unfolding ends on_task_done
ends-IsTracked i cancelled r v = elim (Option-cases (lookup i r.running)) [
  | inl e ↦ rw (e, ends) v
  | inr (k, e) ↦ rw (e, ends) (ended-IsTracked i r v)
]
ends-IsTracked i finished r v = elim (Option-cases (lookup i r.running)) [
  | inl e ↦ rw (e, ends) v
  | inr (k, e) ↦ rw (e, ends) (ended-IsTracked i r v)
]
ends-IsTracked i crashed r v = elim (Option-cases (lookup i r.running)) [
  | inl e ↦ rw (e, ends) v
  | inr (k, e) ↦ rw (e, ends) (erase-IsTracked i k r v (v.tracked i k e))
]

pub await-IsTracked : (es : List (ℕ × Ending)) (r : Registry) → IsTracked r → IsTracked (await es r)
unfolding await
await-IsTracked [] r v = v
await-IsTracked ((i, how) ∷ es) r v = await-IsTracked es (ends i how r) (ends-IsTracked i how r v)

cancel-IsTracked : (k : Text) (r : Registry) → IsTracked r → IsTracked (cancel k r)
unfolding cancel
cancel-IsTracked k r v = elim (Option-cases (lookup k r.tasks)) [
  | inl e ↦ rw (e, cancel) v
  | inr (i, e) ↦ rw (e, cancel) (erase-IsTracked i k r v e)
]

cancel_each-IsTracked : (ks : List Text) (r : Registry) → IsTracked r → IsTracked (cancel_each ks r)
unfolding cancel_each
cancel_each-IsTracked [] r v = v
cancel_each-IsTracked (k ∷ ks) r v = cancel_each-IsTracked ks (cancel k r) (cancel-IsTracked k r v)

pub cancel_tasks-IsTracked :
    (es : List (ℕ × Ending)) (ks : List Text) (r : Registry)
    → IsTracked r
    → IsTracked (cancel_tasks es ks r)
unfolding cancel_tasks
cancel_tasks-IsTracked es ks r v =
    await-IsTracked es (cancel_each ks r) (cancel_each-IsTracked ks r v)

pub fetch_providers-IsTracked :
    (a : Answer) (r : Registry) → IsTracked r → IsTracked (fetch_providers a r).1
unfolding fetch_providers
fetch_providers-IsTracked (rows l) r v = record {
  tracked = v.tracked;
  below = v.below;
  apart = v.apart;
}
fetch_providers-IsTracked undefined_table r v = record {
  tracked = v.tracked;
  below = v.below;
  apart = v.apart;
}
fetch_providers-IsTracked failed r v = v

add-IsTracked :
    (k : Text) (r : Registry)
    → IsTracked r
    → lookup k r.tasks ≡ none
    → IsTracked (record r {
      tasks = insert k r.next r.tasks;
      running = insert r.next k r.running;
      next = suc r.next;
    })
add-IsTracked k r v e = record {
  tracked = λ j l h. ground (
    arith,
    h,
    e,
    lookup-insert r.next j k r.running,
    lookup-insert k l r.next r.tasks,
    v.tracked j l,
    eqb_iff r.next j,
    text_beq_iff k l,
  );
  below = λ j l h. ground (arith, h, lookup-insert k l r.next r.tasks, v.below j l);
  apart = λ j l m h h'. ground (
    arith,
    h,
    h',
    lookup-insert k l r.next r.tasks,
    lookup-insert k m r.next r.tasks,
    v.below j l,
    v.below j m,
    v.apart j l m,
    text_beq_iff k l,
    text_beq_iff k m,
  );
}

module _ (known : Text → Bool) (constructs : Row → Bool) where
  start_task-IsTracked :
      (p : Row) (r : Registry) → IsTracked r → IsTracked (start_task known constructs p r).0
  unfolding start_task
  start_task-IsTracked p r v = ground (arith, add-IsTracked (key p.tenant_id p.name) r v)

  pub start_each-IsTracked :
      (ps : List Row) (r : Registry) → IsTracked r → IsTracked (start_each known constructs ps r).0
  unfolding start_each
  start_each-IsTracked [] r v = v
  start_each-IsTracked (p ∷ ps) r v = elim (Bool-cases (start_task known constructs p r).1) [
    | inl e ↦
        rw (e, start_each)
          (start_each-IsTracked ps (start_task known constructs p r).0 (start_task-IsTracked p r v))
    | inr e ↦ rw (e, start_each) (start_task-IsTracked p r v)
  ]

  pub start_missing-IsTracked :
      (d : Dict Text Row) (current : List Text) (r : Registry)
      → IsTracked r
      → IsTracked (start_missing known constructs d current r).0
  unfolding start_missing
  start_missing-IsTracked [] current r v = v
  start_missing-IsTracked ((k, p) ∷ d) current r v = elim (Bool-cases (elem k current)) [
    | inl there ↦ rw (there, start_missing) (start_missing-IsTracked d current r v)
    | inr missing ↦ elim (Bool-cases (start_task known constructs p r).1) [
      | inl e ↦
          rw (missing, start_missing, e)
            (start_missing-IsTracked d current (start_task known constructs p r).0
              (start_task-IsTracked p r v))
      | inr e ↦ rw (missing, start_missing, e) (start_task-IsTracked p r v)
    ]
  ]

-- ===== src/Registry/Follows.antt =====
-- omkit/provider/registry.py: the tasks after a reconciliation.
use omkit_python.Prelude.{
  ℕ, ◌≡◌, ◌==◌, refl, inl, inr, Bool, true, false, not, ◌&&◌, ◌||◌, Option, none, some, List, [],
  ◌∷◌, arith, if◌then◌else◌, Option-cases, Bool-cases, elem, nat_eq,
}
use omkit_python.Prelude.Text.{Text, text_eq, text_beq_iff}
use omkit_python.Prelude.Dict.{
  Dict, lookup, insert, lookup-insert, lookup-erase, contains, keys, contains-keys,
}
use omkit_python.Prelude.Unique.{IsUnique, insert-IsUnique}
use omkit_python.Registry.{
  Row, Registry, rows, key, await, cancel, cancel_each, cancel_tasks, fetch_providers, start_task,
  start_missing, reconcile_all, desired_from, undesired,
}

cancel-lookup :
    (j k : Text) (r : Registry)
    → lookup k (cancel j r).tasks ≡ (if j == k then none else lookup k r.tasks)
unfolding cancel
cancel-lookup j k r = elim (Option-cases (lookup j r.tasks)) [
  | inl e ↦ ground (arith, e, text_beq_iff j k)
  | inr (i, e) ↦ ground (arith, e, lookup-erase j k r.tasks)
]

pub cancel_each-lookup :
    (ks : List Text) (k : Text) (r : Registry)
    → lookup k (cancel_each ks r).tasks ≡ (if elem k ks then none else lookup k r.tasks)
unfolding cancel_each
cancel_each-lookup [] k r = refl
cancel_each-lookup (j ∷ ks) k r =
    ground (arith, cancel_each-lookup ks k (cancel j r), cancel-lookup j k r)

undesired-elem :
    (d : Dict Text Row) (k : Text) (ks : List Text)
    → elem k (undesired d ks) ≡ (elem k ks && not (contains k d))
unfolding undesired
undesired-elem d k [] = refl
undesired-elem d k (j ∷ ks) = ground (arith, text_beq_iff j k, undesired-elem d k ks)

-- Every entry of the dict stands under the key of its row.
abbrev IsKeyed : Dict Text Row → Type 0
IsKeyed [] = Unit
IsKeyed ((k, p) ∷ d) = (key p.tenant_id p.name ≡ k) × IsKeyed d

insert-IsKeyed :
    (p : Row) (d : Dict Text Row) → IsKeyed d → IsKeyed (insert (key p.tenant_id p.name) p d)
unfolding insert
insert-IsKeyed p [] v = (refl, tt)
insert-IsKeyed p ((j, q) ∷ d) v =
    ground (arith, insert-IsKeyed p d v.1, text_beq_iff j (key p.tenant_id p.name))

desired_from-IsKeyed : (d : Dict Text Row) (l : List Row) → IsKeyed d → IsKeyed (desired_from d l)
unfolding desired_from
desired_from-IsKeyed d [] v = v
desired_from-IsKeyed d (p ∷ l) v =
    desired_from-IsKeyed (insert (key p.tenant_id p.name) p d) l (insert-IsKeyed p d v)

desired_from-IsUnique :
    (d : Dict Text Row) (l : List Row) → IsUnique d → IsUnique (desired_from d l)
unfolding desired_from
desired_from-IsUnique d [] v = v
desired_from-IsUnique d (p ∷ l) v =
    desired_from-IsUnique (insert (key p.tenant_id p.name) p d) l
      (insert-IsUnique (key p.tenant_id p.name) p d v)

module _ (known : Text → Bool) (constructs : Row → Bool)
    (sound : (p : Row) → constructs p ≡ true) where
  abbrev pub has_class : Option Row → Bool
  has_class none = false
  has_class (some p) = known p.name

  start_task-lookup :
      (p : Row) (k : Text) (r : Registry)
      → lookup (key p.tenant_id p.name) r.tasks ≡ none
      → ((start_task known constructs p r).1 ≡ true)
        × (lookup k (start_task known constructs p r).0.tasks ≡ (
            if known p.name && key p.tenant_id p.name == k then some r.next else lookup k r.tasks))
  unfolding start_task
  start_task-lookup p k r h =
      ground (arith, h, sound p, lookup-insert (key p.tenant_id p.name) k r.next r.tasks)

  -- What the second loop does to the task of a key.
  abbrev Started : Dict Text Row → List Text → Text → Registry → Registry × Bool → Type 0
  Started d current k r (r', returned) =
      (returned ≡ true)
      × (contains k r'.tasks
          ≡ (contains k r.tasks || (not (elem k current) && has_class (lookup k d))))
      × ((i : ℕ) → lookup k r.tasks ≡ some i → lookup k r'.tasks ≡ some i)

  start_missing-Started :
      (d : Dict Text Row) (current : List Text) (k : Text) (r : Registry)
      → IsUnique d
      → IsKeyed d
      → ((j : Text) → contains j d ≡ true → elem j current ≡ false → lookup j r.tasks ≡ none)
      → Started d current k r (start_missing known constructs d current r)
  unfolding start_missing lookup
  start_missing-Started [] current k r u v h = ground arith
  start_missing-Started ((j, p) ∷ d) current k r u v h = elim (Bool-cases (elem j current)) [
    | inl there ↦
        rw (there, start_missing)
          (let rest =
              start_missing-Started d current k r u.1 v.1 (λ i c m. h i (ground (arith, c)) m) in
            ground (arith, rest, there, text_beq_iff j k))
    | inr missing ↦
        let free : lookup (key p.tenant_id p.name) r.tasks ≡ none =
          rw v.0 (h j (ground (arith, text_beq_iff j j)) missing) in
        let r' = (start_task known constructs p r).0 in
        let started = start_task-lookup p k r free in
        let rest = start_missing-Started d current k r' u.1 v.1 (λ i c m.
          ground (arith, h i, c, m, start_task-lookup p i r free, v.0, u.0, text_beq_iff j i)) in
        rw (missing, start_missing, started.0)
          (ground (arith, rest, started.1, missing, text_beq_iff j k, v.0, u.0, free))
  ]

  -- If no constructor of a provider raises, the rows are fetched, and no task ends meanwhile, a
  -- reconciliation returns. Afterwards a key has a task exactly if it has a row and either it had a
  -- task or its name has a class; and a task whose key has a row is the one that it was.
  pub reconcile_follows :
      (l : List Row) (k : Text) (r : Registry)
      → let desired = desired_from [] l in
        let (r', returned) = reconcile_all known constructs (rows l) [] [] r in
        (returned ≡ true)
        × (contains k r'.tasks
            ≡ (contains k desired && (contains k r.tasks || has_class (lookup k desired))))
        × ((i : ℕ)
            → contains k desired ≡ true
            → lookup k r.tasks ≡ some i
            → lookup k r'.tasks ≡ some i)
  unfolding reconcile_all fetch_providers await cancel_tasks
  reconcile_follows l k r =
      let desired = desired_from [] l in
      let current = keys r.tasks in
      let q = cancel_each (undesired desired current) (record r { table_missing = false }) in
      let left = λ (j : Text).
        cancel_each-lookup (undesired desired current) j (record r { table_missing = false }) in
      let done =
        start_missing-Started desired current k q (desired_from-IsUnique [] l tt)
          (desired_from-IsKeyed [] l tt)
          (λ j c m. ground (arith, left j, contains-keys j r.tasks, m)) in
      ground (arith, done, left k, undesired-elem desired k current, contains-keys k r.tasks)

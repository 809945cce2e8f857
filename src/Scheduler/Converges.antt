-- ===== src/Scheduler/Converges.antt =====
-- omkit/scheduler/scheduler.py: with services that answer, one reconciliation is enough.
use omkit_python.Prelude.{
  ◌≡◌, refl, inl, inr, true, false, Option, none, some, List, [], ◌∷◌, arith, if◌then◌else◌, ◌==◌,
  Bool-cases, Option-cases, All,
}
use omkit_python.Prelude.Text.{Text, text_eq, text_beq_iff}
use omkit_python.Prelude.Dict.{
  Dict, lookup, erase, lookup-erase, lookup-insert, keys, contains, is_some,
}
use omkit_python.Prelude.Unique.{IsUnique}
use omkit_python.Jobqueue.Envelope.Laws.{wrap_cases}
use omkit_python.Scheduler.{
  Provider, Entry, Services, Setup, build_payload, submit, register_one, enter, stale,
  unregister_all, register_fresh, reregister, converge_entry, converge_row, converge_all,
  desired_from, reconcile, config_hash,
}
use omkit_python.Scheduler.Target.{
  Answers, fingerprint, target, desired_from-All, desired_from-IsUnique, left-lookup,
}

module _ {W : Type 0} (s : Services W) (u : Setup) where
  module _ (a : Answers s u) where
    some_of : {A : Type 0} (o : Option A) → is_some o ≡ true → (x : A) × (o ≡ some x)
    some_of none h = cc
    some_of (some x) h = (x, refl)

    register_one-some :
        (p : Provider) (cron : Text) (w : W)
        → u.is_uuid p.tenant_id ≡ true
        → (i : Text) × ((register_one s u p cron w).0 ≡ some i)
    unfolding register_one submit build_payload
    register_one-some p cron w h =
        rw (wrap_cases u.is_uuid u.coercions p.tenant_id [] (build_payload p), h, submit)
          (some_of _ (a.registers cron u.task_type _ u.queue w))

    enter-lookup :
        (j k : Text) (p : Provider) (cron i : Text) (d : Dict Text Entry) (r : Option Text × W)
        → r.0 ≡ some i
        → fingerprint (lookup k (enter s u j p cron d r).0)
          ≡ (if j == k then some (config_hash s u cron p.config) else fingerprint (lookup k d))
    unfolding enter
    enter-lookup j k p cron i d (none, w) h = cc
    enter-lookup j k p cron i d (some i', w) h = elim (Bool-cases (j == k)) [
      | inl same ↦ rw (lookup-insert j k _ d, same)
      | inr other ↦ rw (lookup-insert j k _ d, other)
    ]

    register_fresh-lookup :
        (j k : Text) (p : Provider) (cron : Text) (d : Dict Text Entry) (w : W)
        → u.is_uuid p.tenant_id ≡ true
        → fingerprint (lookup k (register_fresh s u j p cron (d, w)).0)
          ≡ (if j == k then some (config_hash s u cron p.config) else fingerprint (lookup k d))
    unfolding register_fresh
    register_fresh-lookup j k p cron d w h =
        let (i, e) = register_one-some p cron w h in
        enter-lookup j k p cron i d (register_one s u p cron w) e

    converge_entry-lookup :
        (j k : Text) (p : Provider) (cron : Text) (d : Dict Text Entry) (w : W)
        → u.is_uuid p.tenant_id ≡ true
        → fingerprint (lookup k (converge_entry s u j p cron (d, w)).0)
          ≡ (if j == k then some (config_hash s u cron p.config) else fingerprint (lookup k d))
    unfolding converge_entry reregister
    converge_entry-lookup j k p cron d w h = elim (Option-cases (lookup j d)) [
      | inl absent ↦ rw (absent, converge_entry) (register_fresh-lookup j k p cron d w h)
      | inr (e, found) ↦ elim (Bool-cases (e.hash == config_hash s u cron p.config)) [
        | inl same ↦
            rw (found, converge_entry, same)
              (ground
                (arith, text_beq_iff j k, text_beq_iff e.hash (config_hash s u cron p.config)))
        | inr changed ↦
            rw (found, converge_entry, changed, a.unregisters e.entry_id w)
              (ground (
                arith,
                register_fresh-lookup j k p cron (erase j d) (s.unregister e.entry_id w).1 h,
                lookup-erase j k d,
              ))
      ]
    ]

    converge_row-lookup :
        (j k : Text) (p : Provider) (st : Dict Text Entry × W)
        → u.is_uuid p.tenant_id ≡ true
        → ((converge_row s u j p st).1 ≡ true)
          × (fingerprint (lookup k (converge_row s u j p st).0.0) ≡ (
              if j == k
              then target s u (some p) (fingerprint (lookup k st.0))
              else fingerprint (lookup k st.0)))
    unfolding converge_row
    converge_row-lookup j k p (d, w) h = elim (Option-cases (u.derive_cron p)) [
      | inl raised ↦ absurd (let e = a.derives p in cc)
      | inr ((cron, true), e) ↦
          (rw (e, converge_row), rw (e, converge_row) (converge_entry-lookup j k p cron d w h))
      | inr ((cron, false), e) ↦ (rw (e, converge_row), rw (e, converge_row) (ground (arith)))
    ]

    converge_all-lookup :
        (k : Text) (ps : Dict Text Provider) (st : Dict Text Entry × W)
        → IsUnique ps
        → All (λ e. u.is_uuid e.1.tenant_id ≡ true) ps
        → fingerprint (lookup k (converge_all s u ps st).0.0) ≡ (
            if contains k ps
            then target s u (lookup k ps) (fingerprint (lookup k st.0))
            else fingerprint (lookup k st.0))
    unfolding converge_all lookup
    converge_all-lookup k [] st un al = refl
    converge_all-lookup k ((j, p) ∷ ps) st un al = ground (
      arith,
      converge_row-lookup j k p st al.0,
      converge_all-lookup k ps (converge_row s u j p st).0 un.1 al.1,
      text_beq_iff j k,
      un.0,
    )

    converge_all-returns :
        (ps : Dict Text Provider) (st : Dict Text Entry × W)
        → All (λ e. u.is_uuid e.1.tenant_id ≡ true) ps
        → (converge_all s u ps st).1 ≡ true
    unfolding converge_all
    converge_all-returns [] st al = refl
    converge_all-returns ((j, p) ∷ ps) st al =
        rw ((converge_row-lookup j j p st al.0).0, converge_all)
          (converge_all-returns ps (converge_row s u j p st).0 al.1)

    -- Suppose that no call of the backend or of `derive_cron` raises, that the rows are fetched and
    -- that their tenants are UUIDs. Then one reconciliation returns, and after it every key has the
    -- entry that it should have: none if no row has the key; an entry with the hash of the derived
    -- cron spec and the row's config if `derive_cron` accepts the row; and what it had before if
    -- `derive_cron` does not accept the row. Of rows with one key the last counts.
    pub reconcile_converges :
        (st : Dict Text Entry × W) (ps : List Provider) (k : Text)
        → (s.fetch_providers u.kind st.1).0 ≡ some ps
        → All (λ p. u.is_uuid p.tenant_id ≡ true) ps
        → ((reconcile s u st).1 ≡ true)
          × (fingerprint (lookup k (reconcile s u st).0.0)
              ≡ target s u (lookup k (desired_from [] ps)) (fingerprint (lookup k st.0)))
    unfolding reconcile
    reconcile_converges (d, w) ps k h al =
        let w' = (s.fetch_providers u.kind w).1 in
        let des = desired_from [] ps in
        let left = unregister_all s u des (stale s u des (keys d)) (d, w') in
        let al' = desired_from-All (λ p. u.is_uuid p.tenant_id ≡ true) [] ps tt al in
        rw (h, reconcile)
          (
            converge_all-returns des left al',
            ground (
              arith,
              left-lookup s u a des k (d, w'),
              converge_all-lookup k des left (desired_from-IsUnique [] ps tt) al',
            ),
          )

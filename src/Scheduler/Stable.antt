-- ===== src/Scheduler/Stable.antt =====
-- omkit/scheduler/scheduler.py: where the entries agree with the rows, nothing is called.
use omkit_python.Prelude.{
  ◌≡◌, refl, inl, inr, true, false, some, List, [], ◌∷◌, arith, elem, Option-cases,
}
use omkit_python.Prelude.Text.{Text, text_eq, text_beq_iff}
use omkit_python.Prelude.Dict.{Dict, lookup, keys, contains, contains-keys, is_some}
use omkit_python.Prelude.Unique.{IsUnique}
use omkit_python.Scheduler.{
  Provider, Entry, Services, Setup, stale, unregister_all, converge_entry, converge_row,
  converge_all, desired_from, reconcile, config_hash,
}
use omkit_python.Scheduler.Target.{fingerprint, target, desired_from-IsUnique}

module _ {W : Type 0} (s : Services W) (u : Setup) where
  stale-nil :
      (des : Dict Text Provider) (ks : List Text)
      → ((k : Text) → elem k ks ≡ true → contains k des ≡ true)
      → stale s u des ks ≡ []
  unfolding stale
  stale-nil des [] h = refl
  stale-nil des (k ∷ ks) h =
      ground (
        arith,
        h k (ground (arith, text_beq_iff k k)),
        stale-nil des ks (λ j m. h j (ground arith)),
      )

  converge_row-same :
      (k : Text) (p : Provider) (st : Dict Text Entry × W)
      → is_some (u.derive_cron p) ≡ true
      → fingerprint (lookup k st.0) ≡ target s u (some p) (fingerprint (lookup k st.0))
      → converge_row s u k p st ≡ (st, true)
  unfolding converge_row converge_entry
  converge_row-same k p (d, w) r h = elim (Option-cases (u.derive_cron p)) [
    | inl raised ↦ cc
    | inr ((cron, false), e) ↦ rw (e, converge_row)
    | inr ((cron, true), e) ↦ elim (Option-cases (lookup k d)) [
      | inl absent ↦ ground arith
      | inr (ent, found) ↦ ground (arith, text_beq_iff ent.hash (config_hash s u cron p.config))
    ]
  ]

  converge_all-same :
      (ps : Dict Text Provider) (st : Dict Text Entry × W)
      → IsUnique ps
      → ((p : Provider) → is_some (u.derive_cron p) ≡ true)
      → ((k : Text) (p : Provider)
          → lookup k ps ≡ some p
          → fingerprint (lookup k st.0) ≡ target s u (some p) (fingerprint (lookup k st.0)))
      → converge_all s u ps st ≡ (st, true)
  unfolding converge_all lookup
  converge_all-same [] st un r h = refl
  converge_all-same ((k, p) ∷ ps) st un r h = ground (
    arith,
    converge_row-same k p st (r p) (h k p (ground (arith, text_beq_iff k k))),
    converge_all-same ps st un.1 r (λ j q e. h j q (ground (arith, text_beq_iff k j, un.0))),
  )

  -- Suppose that the rows are fetched, that `derive_cron` does not raise, and that every key has
  -- already the entry that it should have. Then a reconciliation calls neither the backend nor the
  -- enqueuer: the entries stay, and the world of the services is as the fetch left it.
  pub reconcile_stable :
      (d : Dict Text Entry) (w : W) (ps : List Provider)
      → (s.fetch_providers u.kind w).0 ≡ some ps
      → ((p : Provider) → is_some (u.derive_cron p) ≡ true)
      → ((k : Text)
          → fingerprint (lookup k d)
            ≡ target s u (lookup k (desired_from [] ps)) (fingerprint (lookup k d)))
      → reconcile s u (d, w) ≡ ((d, (s.fetch_providers u.kind w).1), true)
  unfolding reconcile
  reconcile_stable d w ps h r fix =
      let w' = (s.fetch_providers u.kind w).1 in
      let des = desired_from [] ps in
      let none_stale : stale s u des (keys d) ≡ [] =
        stale-nil des (keys d) (λ k m. ground (arith, contains-keys k d, fix k)) in
      rw (h, reconcile, none_stale, unregister_all)
        (converge_all-same des (d, w') (desired_from-IsUnique [] ps tt) r
          (λ k p e. rw e at (fix k)))

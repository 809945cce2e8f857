-- ===== src/Scheduler/Registered.antt =====
-- omkit/scheduler/scheduler.py: the entries and the registrations on the backend.
use omkit_python.Prelude.{
  ◌+◌, ◌≡◌, refl, ◌∙◌, inl, inr, Option, none, some, List, [], ◌∷◌, arith, ◌==◌, ==-refl,
  Bool-cases, Option-cases,
}
use omkit_python.Prelude.Text.{Text, Bytes, text_eq}
use omkit_python.Prelude.Exceptions.{Result, ok, raise}
use omkit_python.Prelude.Dict.{Dict, lookup, erase, lookup-erase, keys}
use omkit_python.Jobqueue.Envelope.{Error, wrap}
use omkit_python.Scheduler.{
  Provider, Entry, Services, Setup, build_payload, submit, register_one, enter, unregister_stale,
  stale, unregister_all, enqueue_now, register_fresh, reregister, converge_entry, converge_row,
  converge_all, desired_from, reconcile, config_hash,
}
use omkit_python.Scheduler.Accounts.{
  Accounts, one, IsRegistered, drop-IsRegistered, same-IsRegistered, add-IsRegistered,
}

module _ {W : Type 0} (s : Services W) (u : Setup) (a : Accounts s) where
  unregister_stale-IsRegistered :
      (des : Dict Text Provider) (k : Text) (d : Dict Text Entry) (w : W)
      → IsRegistered s u a (d, w)
      → IsRegistered s u a (unregister_stale s u des k (d, w))
  unfolding unregister_stale
  unregister_stale-IsRegistered des k d w r = elim (Option-cases (lookup k d)) [
    | inl absent ↦ rw (absent, unregister_stale) r
    | inr (e, h) ↦ elim (Bool-cases (s.unregister e.entry_id w).0) [
      | inl done ↦ rw (h, unregister_stale, done) (drop-IsRegistered s u a k e d w r h done)
      | inr failed ↦
          rw (h, unregister_stale, failed)
            (same-IsRegistered s u a d w (s.unregister e.entry_id w).1 r
              (λ j. a.unregister_fails e.entry_id j w failed))
    ]
  ]

  unregister_all-IsRegistered :
      (des : Dict Text Provider) (ks : List Text) (st : Dict Text Entry × W)
      → IsRegistered s u a st
      → IsRegistered s u a (unregister_all s u des ks st)
  unfolding unregister_all
  unregister_all-IsRegistered des [] st r = r
  unregister_all-IsRegistered des (k ∷ ks) st r =
      unregister_all-IsRegistered des ks (unregister_stale s u des k st)
        (unregister_stale-IsRegistered des k st.0 st.1 r)

  submit-adds :
      (cron i j : Text) (m : Result Error Bytes) (w : W)
      → (submit s u cron m w).0 ≡ some i
      → a.live (submit s u cron m w).1 j ≡ one i j + a.live w j
  unfolding submit
  submit-adds cron i j (ok body) w h = a.register_adds cron u.task_type body u.queue i j w h
  submit-adds cron i j (raise x) w h = cc

  submit-fails :
      (cron j : Text) (m : Result Error Bytes) (w : W)
      → (submit s u cron m w).0 ≡ none
      → a.live (submit s u cron m w).1 j ≡ a.live w j
  unfolding submit
  submit-fails cron j (ok body) w h = a.register_fails cron u.task_type body u.queue j w h
  submit-fails cron j (raise x) w h = refl

  enqueue_now-live : (p : Provider) (j : Text) (w : W) → a.live (enqueue_now s u p w) j ≡ a.live w j
  unfolding enqueue_now
  enqueue_now-live p j w =
      ground (arith, a.enqueue_keeps u.task_type p.tenant_id u.queue j (build_payload p) w)

  enter-IsRegistered :
      (k : Text) (p : Provider) (cron : Text) (d : Dict Text Entry) (w : W) (r : Option Text × W)
      → IsRegistered s u a (d, w)
      → lookup k d ≡ none
      → ((i j : Text) → r.0 ≡ some i → a.live r.1 j ≡ one i j + a.live w j)
      → ((j : Text) → r.0 ≡ none → a.live r.1 j ≡ a.live w j)
      → IsRegistered s u a (enter s u k p cron d r)
  unfolding enter
  enter-IsRegistered k p cron d w (none, w') r h adds fails =
      same-IsRegistered s u a d w w' r (λ j. fails j refl)
  enter-IsRegistered k p cron d w (some i, w') r h adds fails =
      add-IsRegistered s u a k _ d w (enqueue_now s u p w') r h
        (λ j. enqueue_now-live p j w' ∙ adds i j refl)

  register_fresh-IsRegistered :
      (k : Text) (p : Provider) (cron : Text) (d : Dict Text Entry) (w : W)
      → IsRegistered s u a (d, w)
      → lookup k d ≡ none
      → IsRegistered s u a (register_fresh s u k p cron (d, w))
  unfolding register_fresh
  register_fresh-IsRegistered k p cron d w r h =
      let m = wrap u.is_uuid u.coercions p.tenant_id (build_payload p) [] in
      enter-IsRegistered k p cron d w (register_one s u p cron w) r h
        (λ i j e. submit-adds cron i j m w e) (λ j e. submit-fails cron j m w e)

  reregister-IsRegistered :
      (k : Text) (p : Provider) (cron : Text) (e : Entry) (d : Dict Text Entry) (w : W)
      → IsRegistered s u a (d, w)
      → lookup k d ≡ some e
      → IsRegistered s u a (reregister s u k p cron e (d, w))
  unfolding reregister
  reregister-IsRegistered k p cron e d w r h = elim (Bool-cases (s.unregister e.entry_id w).0) [
    | inl done ↦ rw done (
        register_fresh-IsRegistered k p cron (erase k d) (s.unregister e.entry_id w).1
          (drop-IsRegistered s u a k e d w r h done) (rw (lookup-erase k k d, ==-refl k)))
    | inr failed ↦ rw failed (
        same-IsRegistered s u a d w (s.unregister e.entry_id w).1 r
          (λ j. a.unregister_fails e.entry_id j w failed))
  ]

  converge_entry-IsRegistered :
      (k : Text) (p : Provider) (cron : Text) (d : Dict Text Entry) (w : W)
      → IsRegistered s u a (d, w)
      → IsRegistered s u a (converge_entry s u k p cron (d, w))
  unfolding converge_entry
  converge_entry-IsRegistered k p cron d w r = elim (Option-cases (lookup k d)) [
    | inl absent ↦ rw (absent, converge_entry) (register_fresh-IsRegistered k p cron d w r absent)
    | inr (e, h) ↦ elim (Bool-cases (e.hash == config_hash s u cron p.config)) [
      | inl same ↦ rw (h, converge_entry, same) r
      | inr changed ↦ rw (h, converge_entry, changed) (reregister-IsRegistered k p cron e d w r h)
    ]
  ]

  converge_row-IsRegistered :
      (k : Text) (p : Provider) (st : Dict Text Entry × W)
      → IsRegistered s u a st
      → IsRegistered s u a (converge_row s u k p st).0
  unfolding converge_row
  converge_row-IsRegistered k p st r = elim (Option-cases (u.derive_cron p)) [
    | inl raised ↦ rw (raised, converge_row) r
    | inr ((cron, accepted), h) ↦ elim (Bool-cases accepted) [
      | inl t ↦ rw (h, converge_row, t) (converge_entry-IsRegistered k p cron st.0 st.1 r)
      | inr f ↦ rw (h, converge_row, f) r
    ]
  ]

  converge_all-IsRegistered :
      (ps : Dict Text Provider) (st : Dict Text Entry × W)
      → IsRegistered s u a st
      → IsRegistered s u a (converge_all s u ps st).0
  unfolding converge_all
  converge_all-IsRegistered [] st r = r
  converge_all-IsRegistered ((k, p) ∷ ps) st r =
      let r' = converge_row-IsRegistered k p st r in
      elim (Bool-cases (converge_row s u k p st).1) [
        | inl on ↦ rw on (converge_all-IsRegistered ps (converge_row s u k p st).0 r')
        | inr raised ↦ rw raised r'
      ]

  -- Suppose that no key has two entries and that the registrations on the backend are exactly those
  -- of the entries, each once. Then this holds after a reconciliation too, whichever calls of the
  -- backend, of the enqueuer, of `wrap` or of `derive_cron` raise, also where the reconciliation
  -- raises: no registration is lost or doubled. Assumed of the services is that a call that raises
  -- registers and removes nothing, and that one that returns did what it is for.
  pub reconcile-IsRegistered :
      (st : Dict Text Entry × W) → IsRegistered s u a st → IsRegistered s u a (reconcile s u st).0
  unfolding reconcile
  reconcile-IsRegistered (d, w) r = elim (Option-cases (s.fetch_providers u.kind w).0) [
    | inl raised ↦ rw (raised, reconcile) fetched
    | inr (ps, h) ↦
        let des = desired_from [] ps in
        rw (h, reconcile)
          (converge_all-IsRegistered des _
            (unregister_all-IsRegistered des (stale s u des (keys d)) _ fetched))
  ]
    where
      fetched : IsRegistered s u a (d, (s.fetch_providers u.kind w).1)
      fetched =
          same-IsRegistered s u a d w (s.fetch_providers u.kind w).1 r
            (λ j. a.fetch_keeps u.kind j w)

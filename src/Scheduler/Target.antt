-- ===== src/Scheduler/Target.antt =====
-- omkit/scheduler/scheduler.py: the entries that the rows ask for, and the first loop.
use omkit_python.Prelude.{
  ◌≡◌, refl, inl, inr, Bool, true, not, ◌&&◌, Option, none, some, List, [], ◌∷◌, arith,
  if◌then◌else◌, ◌==◌, elem, Option-cases, All,
}
use omkit_python.Prelude.Text.{Text, Bytes, text_eq, text_beq_iff}
use omkit_python.Prelude.Dict.{
  Dict, lookup, insert, lookup-erase, keys, contains, contains-keys, is_some,
}
use omkit_python.Prelude.Unique.{IsUnique, insert-IsUnique}
use omkit_python.Scheduler.{
  Provider, Entry, Services, Setup, key, unregister_stale, stale, unregister_all, desired_from,
  config_hash,
}

-- The backend never raises, and neither does the callback.
pub record Answers {W : Type 0} (s : Services W) (u : Setup) : Type 0 where
  pub registers :
      (cron t : Text) (body : Bytes) (queue : Text) (w : W)
      → is_some (s.register cron t body queue w).0 ≡ true
  pub unregisters : (i : Text) (w : W) → (s.unregister i w).0 ≡ true
  pub derives : (p : Provider) → is_some (u.derive_cron p) ≡ true

abbrev pub fingerprint : Option Entry → Option Text
fingerprint none = none
fingerprint (some e) = some e.hash

insert-All :
    (P : Provider → Type 0) (k : Text) (p : Provider) (d : Dict Text Provider)
    → P p
    → All (λ e. P e.1) d
    → All (λ e. P e.1) (insert k p d)
unfolding insert
insert-All P k p [] h al = (h, tt)
insert-All P k p ((j, q) ∷ d) h al = ground (arith, insert-All P k p d h al.1)

pub desired_from-All :
    (P : Provider → Type 0) (d : Dict Text Provider) (ps : List Provider)
    → All (λ e. P e.1) d
    → All P ps
    → All (λ e. P e.1) (desired_from d ps)
unfolding desired_from
desired_from-All P d [] h al = h
desired_from-All P d (p ∷ ps) h al =
    desired_from-All P (insert (key p.tenant_id p.name) p d) ps
      (insert-All P (key p.tenant_id p.name) p d al.0 h) al.1

pub desired_from-IsUnique :
    (d : Dict Text Provider) (ps : List Provider) → IsUnique d → IsUnique (desired_from d ps)
unfolding desired_from
desired_from-IsUnique d [] h = h
desired_from-IsUnique d (p ∷ ps) h =
    desired_from-IsUnique (insert (key p.tenant_id p.name) p d) ps
      (insert-IsUnique (key p.tenant_id p.name) p d h)

module _ {W : Type 0} (s : Services W) (u : Setup) where
  -- The hash that the entry of a key should have, by the row with the key and what was there.
  abbrev pub derived : Provider → Option Text → Option (Text × Bool) → Option Text
  derived p old none = old
  derived p old (some (cron, accepted)) =
      if accepted then some (config_hash s u cron p.config) else old

  abbrev pub target : Option Provider → Option Text → Option Text
  target none old = none
  target (some p) old = derived p old (u.derive_cron p)

  stale-elem :
      (des : Dict Text Provider) (k : Text) (ks : List Text)
      → elem k (stale s u des ks) ≡ (elem k ks && not (contains k des))
  unfolding stale
  stale-elem des k [] = refl
  stale-elem des k (j ∷ ks) = ground (arith, stale-elem des k ks, text_beq_iff j k)

  module _ (a : Answers s u) where
    unregister_stale-lookup :
        (des : Dict Text Provider) (j k : Text) (st : Dict Text Entry × W)
        → lookup k (unregister_stale s u des j st).0 ≡ (if j == k then none else lookup k st.0)
    unfolding unregister_stale
    unregister_stale-lookup des j k (d, w) = elim (Option-cases (lookup j d)) [
      | inl absent ↦ rw (absent, unregister_stale) (ground (arith, text_beq_iff j k))
      | inr (e, h) ↦ rw (h, unregister_stale, a.unregisters e.entry_id w) (lookup-erase j k d)
    ]

    unregister_all-lookup :
        (des : Dict Text Provider) (k : Text) (ks : List Text) (st : Dict Text Entry × W)
        → lookup k (unregister_all s u des ks st).0 ≡ (if elem k ks then none else lookup k st.0)
    unfolding unregister_all
    unregister_all-lookup des k [] st = refl
    unregister_all-lookup des k (j ∷ ks) st = ground (
      arith,
      unregister_all-lookup des k ks (unregister_stale s u des j st),
      unregister_stale-lookup des j k st,
    )

    -- What is left after the first loop.
    pub left-lookup :
        (des : Dict Text Provider) (k : Text) (st : Dict Text Entry × W)
        → lookup k (unregister_all s u des (stale s u des (keys st.0)) st).0
          ≡ (if contains k des then lookup k st.0 else none)
    left-lookup des k st = ground (
      arith,
      unregister_all-lookup des k (stale s u des (keys st.0)) st,
      stale-elem des k (keys st.0),
      contains-keys k st.0,
    )

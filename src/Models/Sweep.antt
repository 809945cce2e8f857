-- ===== src/Models/Sweep.antt =====
-- omkit/model_lifecycle.py: which models the reaper and the shutdown unload.
use omkit_python.Prelude.{
  ℕ, zero, suc, ◌++◌, ◌+◌, ◌≡◌, refl, inl, inr, Bool, true, false, ◌&&◌, Option, none, some, [],
  ◌∷◌, arith, Option-cases, if◌then◌else◌, leb, All,
}
use omkit_python.Prelude.Text.{Text, text_eq, text_beq_iff}
use omkit_python.Prelude.Int.{ℤ, pos, negsuc}
use omkit_python.Prelude.Dict.{Dict, lookup}
use omkit_python.Models.{
  Unload, done, unload_raised, is_loaded, unload, Entry, ModelRegistry, reap, reap_each, sweep,
  shut, shut_each, unload_all,
}

-- A loaded model that was not used for the time to live.
abbrev pub is_due : ℕ → ℤ → Entry → Bool
is_due now (pos (suc t)) e = is_loaded e.lifecycle && leb (suc t + e.lifecycle.last_used) now
is_due now _ e = false

-- What a round of the reaper makes of an entry.
abbrev pub reaped : ℕ → ℤ → Unload → Entry → Entry
reaped now ttl u e =
    if is_due now ttl e
    then elim u [
      | done ↦ record e {
        lifecycle = record e.lifecycle { model = none; last_used = 0; gauge = 0 };
        idle = e.idle + 1;
      }
      | unload_raised ↦ record e { lifecycle = record e.lifecycle { gauge = 0 }; idle = e.idle + 1 }
    ]
    else e

reap-reaped :
    (now t : ℕ) (u : Unload) (e : Entry) → reap now (suc t) u e ≡ reaped now (pos (suc t)) u e
unfolding reap unload
reap-reaped now t done e = ground arith
reap-reaped now t unload_raised e = ground arith

abbrev map_option : {A B : Type 0} → (A → B) → Option A → Option B
map_option f none = none
map_option f (some a) = some (f a)

reap_each-lookup :
    (now t : ℕ) (u : Text → Unload) (name : Text) (d : Dict Text Entry)
    → lookup name (reap_each now (suc t) u d)
      ≡ map_option (reaped now (pos (suc t)) (u name)) (lookup name d)
unfolding reap_each lookup
reap_each-lookup now t u name [] = refl
reap_each-lookup now t u name ((j, e) ∷ d) =
    ground (arith, text_beq_iff j name, reap-reaped now t (u j) e, reap_each-lookup now t u name d)

idle_round :
    (now : ℕ) (u : Text → Unload) (name : Text) (d : Dict Text Entry) (ttl : ℤ)
    → ((e : Entry) → is_due now ttl e ≡ false)
    → lookup name d ≡ map_option (reaped now ttl (u name)) (lookup name d)
idle_round now u name d ttl h = elim (Option-cases (lookup name d)) [
  | inl e ↦ ground (arith, e)
  | inr (q, e) ↦ ground (arith, e, h q)
]

sweep_at :
    (now : ℕ) (u : Text → Unload) (name : Text) (r : ModelRegistry) (ttl : ℤ)
    → r.ttl ≡ ttl
    → lookup name (sweep now u r).models
      ≡ map_option (reaped now ttl (u name)) (lookup name r.models)
unfolding sweep
sweep_at now u name r (pos zero) e =
    rw (e, sweep) (idle_round now u name r.models (pos zero) (λ q. refl))
sweep_at now u name r (pos (suc t)) e = rw (e, sweep) (reap_each-lookup now t u name r.models)
sweep_at now u name r (negsuc n) e =
    rw (e, sweep) (idle_round now u name r.models (negsuc n) (λ q. refl))

-- A round of the reaper unloads the models that are due, each exactly once, and touches no other
-- entry; one whose unload raises is counted, loses its gauge and stays loaded, and stops no other.
-- A time to live of zero or less unloads nothing.
pub sweep_exact :
    (now : ℕ) (u : Text → Unload) (name : Text) (r : ModelRegistry)
    → lookup name (sweep now u r).models
      ≡ map_option (reaped now r.ttl (u name)) (lookup name r.models)
unfolding sweep
sweep_exact now u name r = sweep_at now u name r r.ttl refl

shut-done : (e : Entry) → ((shut done e).1 ≡ true) × (is_loaded (shut done e).0.lifecycle ≡ false)
unfolding shut unload
shut-done e = ground arith

shut-raised :
    (e : Entry)
    → is_loaded e.lifecycle ≡ true
    → shut unload_raised e ≡ (
      record e { lifecycle = record e.lifecycle { gauge = 0 }; shutdown = e.shutdown + 1 },
      false,
    )
unfolding shut unload
shut-raised e h = ground (arith, h)

shut_each-done :
    (u : Text → Unload) (d : Dict Text Entry)
    → ((name : Text) → u name ≡ done)
    → ((shut_each u d).1 ≡ true) × All (λ p. is_loaded p.1.lifecycle ≡ false) (shut_each u d).0
unfolding shut_each
shut_each-done u [] h = (refl, tt)
shut_each-done u ((name, e) ∷ d) h =
    let (r, out) = shut-done e in
    let (r', outs) = shut_each-done u d h in rw (h name, shut_each, r) (r', (out, outs))

shut_each-stops :
    (u : Text → Unload) (pre post : Dict Text Entry) (name : Text) (e : Entry)
    → All (λ p. u p.0 ≡ done) pre
    → u name ≡ unload_raised
    → is_loaded e.lifecycle ≡ true
    → shut_each u (pre ++ ((name, e) ∷ post))
      ≡ ((shut_each u pre).0 ++ ((name, (shut unload_raised e).0) ∷ post), false)
unfolding shut_each
shut_each-stops u [] post name e all bad l = rw (bad, shut_each, shut-raised e l)
shut_each-stops u ((j, q) ∷ pre) post name e all bad l =
    ground (arith, all, shut-done q, shut_each-stops u pre post name e all.1 bad l)

-- If no unload raises, `unload_all` returns, stops the reaper and leaves no model loaded.
pub unload_all_done :
    (u : Text → Unload) (r : ModelRegistry)
    → ((name : Text) → u name ≡ done)
    → ((unload_all u r).1 ≡ true)
      × ((unload_all u r).0.reaping ≡ false)
      × All (λ p. is_loaded p.1.lifecycle ≡ false) (unload_all u r).0.models
unfolding unload_all
unload_all_done u r h = let (r', outs) = shut_each-done u r.models h in (r', refl, outs)

-- The first unload that raises ends `unload_all`: what comes after it in the registry is left as it
-- was, loaded or not.
pub unload_all_stops :
    (u : Text → Unload) (r : ModelRegistry) (pre post : Dict Text Entry) (name : Text) (e : Entry)
    → r.models ≡ pre ++ ((name, e) ∷ post)
    → All (λ p. u p.0 ≡ done) pre
    → u name ≡ unload_raised
    → is_loaded e.lifecycle ≡ true
    → ((unload_all u r).1 ≡ false)
      × ((unload_all u r).0.models
          ≡ (shut_each u pre).0
            ++ ((
              name,
              record e { lifecycle = record e.lifecycle { gauge = 0 }; shutdown = e.shutdown + 1 },
            )
                ∷ post))
unfolding unload_all
unload_all_stops u r pre post name e m all bad l =
    rw (m, shut_each-stops u pre post name e all bad l, shut-raised e l) (refl, refl)

-- ===== src/Scheduler/Tests.antt =====
-- Witnesses and tests for the scheduler.
use omkit_python.Prelude.{
  ℕ, ◌+◌, ◌<◌, ◌≡◌, refl, Bool, true, false, Option, none, some, List, [], ◌∷◌, arith,
  if◌then◌else◌, ◌==◌,
}
use omkit_python.Prelude.Text.{Text, codes, text_eq, text_beq, text_beq_iff, utf8}
use omkit_python.Prelude.Dict.{Dict, lookup, insert, erase}
use omkit_python.Prelude.Unique.{tally}
use omkit_python.Json.{int, str, arr, nil, obj, end, value, dumps}
use omkit_python.Jobqueue.Envelope.{Coercions, wrap}
use omkit_python.Scheduler.{
  Provider, Entry, Services, Setup, key, canonical, hash_input, desired_from, reconcile,
  config_hash,
}
use omkit_python.Scheduler.Accounts.{Accounts, IsRegistered}
use omkit_python.Scheduler.Registered.{reconcile-IsRegistered}
use omkit_python.Scheduler.Target.{fingerprint, target, Answers}
use omkit_python.Scheduler.Converges.{reconcile_converges}
use omkit_python.Scheduler.Stable.{reconcile_stable}
use omkit_python.Scheduler.Loop.{
  Wake, stop_signaled, timed_out, returned, crashed, Lifecycle, run_loop, start, stop,
}
use omkit_python.Scheduler.Runs.{run_loop_crashes, service-IsRegistered}
use omkit_python.Scheduler.Hash.{hash_input_separates}
use omkit_python.Scheduler.Source.{
  SourceRow, fields_or_empty, config_of, select_kind, providers_of, fetch_providers,
}

-- A backend that numbers its registrations, and a table of providers.
record Cron : Type 0 where
  next : ℕ
  ids : List Text
  rows : List Provider

count : Text → List Text → ℕ
count i [] = 0
count i (j ∷ js) = (if j == i then 1 else 0) + count i js

remove : Text → List Text → List Text
remove i [] = []
remove i (j ∷ js) = let rest = remove i js in if j == i then js else j ∷ rest

register_cron : Cron → Option Text × Cron
register_cron w = (some (w.next ∷ []), record w { next = w.next + 1; ids = (w.next ∷ []) ∷ w.ids })

unregister_cron : Text → Cron → Bool × Cron
unfolding remove
unregister_cron i w = (true, record w { ids = remove i w.ids })

abbrev services : Services Cron
services = record {
  fetch_providers = λ kind w. (some w.rows, w);
  register = λ cron t body queue w. register_cron w;
  unregister = unregister_cron;
  enqueue = λ t tenant payload queue w. (false, w);
}

count-remove :
    (i j : Text) (l : List Text)
    → 0 < count i l
    → count j l ≡ (if i == j then 1 else 0) + count j (remove i l)
unfolding count remove
count-remove i j [] h = elim h [ ]
count-remove i j (k ∷ l) h =
    ground (arith, text_beq_iff k i, text_beq_iff k j, text_beq_iff i j, count-remove i j l)

accounts : Accounts services
unfolding register_cron unregister_cron count
accounts = record {
  live = λ w i. count i w.ids;
  fetch_keeps = λ kind i w. refl;
  enqueue_keeps = λ t tenant queue i p w. refl;
  register_adds = λ cron t body queue i j w h. ground arith;
  register_fails = λ cron t body queue j w h. cc;
  unregister_removes = λ i j w h present. count-remove i j w.ids present;
  unregister_fails = λ i j w h. cc;
}

abbrev strict : Coercions
strict = record {
  as_int = elim [ int n ↦ some n | _ ↦ none ];
  as_str = elim [ str s ↦ some s | _ ↦ none ];
  as_dict = elim [ obj fs ↦ some fs | _ ↦ none ];
  as_int-int = λ n. refl;
  as_str-str = λ s. refl;
  as_dict-obj = λ fs. refl;
}

-- SHA-256 is the identity here, every text is a UUID, and rows named "b" are skipped.
abbrev setup : Setup
setup = record {
  kind = codes "indexer";
  queue = codes "q";
  task_type = codes "sync";
  derive_cron = λ p. some (codes "* * * * *", if p.name == codes "b" then false else true);
  has_enqueuer = true;
  sha256_hex = λ b. b;
  is_uuid = λ t. true;
  coercions = strict;
}

abbrev row : Text → Provider
row name = record { tenant_id = codes "t"; name = name; config = end }

abbrev fresh : Cron
fresh = record { next = 5; ids = []; rows = row (codes "a") ∷ row (codes "b") ∷ [] }

abbrev hash_a : Text
hash_a = config_hash services setup (codes "* * * * *") end

abbrev entry_a : Entry
entry_a = record { entry_id = 5 ∷ []; hash = hash_a; cronspec = codes "* * * * *" }

abbrev after : Dict Text Entry × Cron
after = ((codes "t:a", entry_a) ∷ [], record fresh { next = 6; ids = (5 ∷ []) ∷ [] })

runs : Unit {0}
unfolding register_cron unregister_cron reconcile key wrap text_beq lookup insert erase hash_input
    dumps utf8
runs = tt

reconcile-fresh : reconcile services setup ([], fresh) ≡ (after, true)
unfolding runs
reconcile-fresh = refl

reconcile-IsRegistered_example :
    IsRegistered services setup accounts (reconcile services setup ([], fresh)).0
unfolding tally count accounts
reconcile-IsRegistered_example =
    reconcile-IsRegistered services setup accounts ([], fresh)
      (record { unique = tt; balanced = λ j. refl })

answers : Answers services setup
unfolding register_cron unregister_cron
answers = record {
  registers = λ cron t body queue w. refl;
  unregisters = λ i w. refl;
  derives = λ p. refl;
}

reconcile_converges_example :
    ((reconcile services setup ([], fresh)).1 ≡ true)
    × (fingerprint (lookup (codes "t:a") (reconcile services setup ([], fresh)).0.0)
        ≡ target services setup (lookup (codes "t:a") (desired_from [] fresh.rows)) none)
unfolding lookup
reconcile_converges_example =
    reconcile_converges services setup answers ([], fresh) fresh.rows (codes "t:a") refl
      (refl, (refl, tt))

reconcile_stable-tested : reconcile services setup after ≡ (after, true)
unfolding runs desired_from
reconcile_stable-tested =
    reconcile_stable services setup after.0 after.1 fresh.rows refl (λ p. refl) settled
  where
    settled :
        (k : Text)
        → fingerprint (lookup k after.0)
          ≡ target services setup
              (lookup k (desired_from [] fresh.rows))
              (fingerprint (lookup k after.0))
    settled k = ground arith

hash_input_separates-tested :
    (utf8 (codes "@daily") ≡ utf8 (codes "@daily"))
    × (utf8 (dumps canonical (obj end)) ≡ utf8 (dumps canonical (obj end)))
hash_input_separates-tested =
    hash_input_separates (codes "@daily") (codes "@daily") end end (ground arith) (ground arith)
      refl

-- The table is emptied during the second wait.
abbrev wakes : List (Wake Cron)
wakes = timed_out (λ w. w) ∷ timed_out (λ w. record w { rows = [] }) ∷ stop_signaled ∷ []

abbrev lifecycle : Lifecycle Cron
lifecycle = record { start_backend = λ w. (true, w); shutdown_backend = λ w. (false, w) }

run_loop-emptied :
    run_loop services setup wakes (start services setup lifecycle ([], fresh)).0
    ≡ (([], record fresh { next = 6; rows = [] }), returned)
unfolding runs run_loop start remove
run_loop-emptied = refl

stop-failed : stop services setup lifecycle after ≡ (after, false)
unfolding stop
stop-failed = refl

-- A callback that raises for the row "b".
abbrev raising : Setup
raising = record setup {
  derive_cron = λ p. if p.name == codes "b" then none else some (codes "* * * * *", true);
}

run_loop_crashes-tested :
    run_loop services raising wakes ([], fresh)
    ≡ ((reconcile services raising ([], fresh)).0, crashed)
unfolding desired_from key insert text_beq
run_loop_crashes-tested =
    run_loop_crashes services raising (λ w. w)
      (timed_out (λ w. record w { rows = [] }) ∷ stop_signaled ∷ []) ([], fresh) fresh.rows refl
      refl

service-IsRegistered_example :
    IsRegistered services setup accounts
      (run_loop services setup wakes (start services setup lifecycle ([], fresh)).0).0
unfolding tally count accounts
service-IsRegistered_example =
    service-IsRegistered services setup accounts lifecycle wakes ([], fresh) (λ j w. refl)
      ((λ j w. refl), ((λ j w. refl), (tt, tt))) (record { unique = tt; balanced = λ j. refl })

-- Of the rows, the one that is enabled and of the kind; its config is a list, which counts as empty.
abbrev source_rows : List SourceRow
source_rows =
    record {
      tenant_id = codes "t";
      name = codes "n";
      kind = codes "sync";
      enabled = true;
      config = some (value (arr nil));
    }
    ∷ record {
      tenant_id = codes "t";
      name = codes "m";
      kind = codes "sync";
      enabled = false;
      config = none;
    }
    ∷ []

fetched :
    fetch_providers (λ b. none) (λ s. none) (codes "sync") source_rows
    ≡ some (record { tenant_id = codes "t"; name = codes "n"; config = end } ∷ [])
unfolding fetch_providers select_kind providers_of config_of fields_or_empty text_beq
fetched = refl

-- ===== src/Registry/Tests.antt =====
-- Witnesses and tests for the provider registry.
use omkit_python.Prelude.{
  ℕ, ◌≡◌, refl, Bool, true, ◌&&◌, ◌||◌, not, some, List, [], ◌∷◌, ◌==◌, nat_eq, ◌⊎◌, inl, false,
  none, ◌++◌, All,
}
use omkit_python.Prelude.Text.{Text, codes, text_eq, text_beq}
use omkit_python.Prelude.Dict.{lookup, insert, erase, contains}
use omkit_python.Json.{end}
use omkit_python.Registry.{
  Row, Registry, crashed, finished, rows, failed, await, ends, start, stop, reconcile_all,
  reload_tenant, desired_from,
}
use omkit_python.Registry.Once.{new, fresh, next, starts, ending, reconciles, runs_once}
use omkit_python.Registry.Follows.{has_class, reconcile_follows}
use omkit_python.Registry.Watch.{
  Poll, Event, other, pmessage, closed, lost, unreachable, subscribed, disconnected, listen,
  attempt, watch, first_backoff, last_part, backend, backend_from_env, started_task,
  subscribe_valkey,
}
use omkit_python.Registry.Shutdown.{Rounds, looped, stop_leaves_none}
use omkit_python.Registry.Reconnect.{Seconds, powers, none_connects, watch-waits, connects}

abbrev known : Text → Bool
known name = not (name == codes "x")

abbrev constructs : Row → Bool
constructs p = true

abbrev row : Text → Row
row name = record { tenant_id = codes "t"; name = name; config = end }

runs : Unit {0}
unfolding lookup insert erase text_beq start stop ends reconcile_all reload_tenant desired_from
runs = tt

abbrev started : Registry
started = (start known constructs (rows (row (codes "a") ∷ row (codes "x") ∷ [])) [] new).0

-- The name "x" has no class.
started-tasks : started.tasks ≡ (codes "t:a", 0) ∷ []
unfolding runs
started-tasks = refl

-- A task that crashed is started again by the next reconciliation; one that returned is not.
abbrev again : Registry → Registry
again r = (reconcile_all known constructs (rows (row (codes "a") ∷ [])) [] [] r).0

restarted :
    ((again (ends 0 crashed started)).running ≡ (1, codes "t:a") ∷ [])
    × ((again (ends 0 finished started)).running ≡ [])
unfolding runs
restarted = (refl, refl)

abbrev third : Registry
third =
    (reconcile_all known constructs (rows (row (codes "a") ∷ [])) [] [] (ends 0 crashed started)).0

third-known : lookup 1 third.running ≡ some (codes "t:a")
unfolding runs
third-known = refl

runs_once_example : (◌≡◌ {A = ℕ} 1 1) × (lookup (codes "t:a") third.tasks ≡ some 1)
runs_once_example =
    runs_once known constructs 1 1 (codes "t:a")
      (next
        (next (next fresh (starts new (rows (row (codes "a") ∷ row (codes "x") ∷ [])) []))
          (ending started 0 crashed))
        (reconciles (ends 0 crashed started) (rows (row (codes "a") ∷ [])) [] []))
      third-known third-known

abbrev next_rows : List Row
next_rows = row (codes "b") ∷ []

abbrev second : Registry × Bool
second = reconcile_all known constructs (rows next_rows) [] [] started

reconcile_follows-tested :
    (second.1 ≡ true)
    × (contains (codes "t:b") second.0.tasks ≡ (
        contains (codes "t:b") (desired_from [] next_rows)
        && (contains (codes "t:b") started.tasks
            || has_class known constructs
                (λ p. refl)
                (lookup (codes "t:b") (desired_from [] next_rows)))))
    × ((i : ℕ)
        → contains (codes "t:b") (desired_from [] next_rows) ≡ true
        → lookup (codes "t:b") started.tasks ≡ some i
        → lookup (codes "t:b") second.0.tasks ≡ some i)
reconcile_follows-tested =
    reconcile_follows known constructs (λ p. refl) next_rows (codes "t:b") started

-- The database and Valkey are lost twice, and a subscription then finds "b" in place of "a".
abbrev lost_twice : Rounds
lost_twice = (unreachable, []) ∷ (unreachable, (0, crashed) ∷ []) ∷ []

watch-waits_example :
    All Seconds (watch known constructs lost_twice first_backoff started).waits
    × (none_connects lost_twice ≡ true
        → (watch known constructs lost_twice first_backoff started).waits ≡ powers 1 lost_twice)
watch-waits_example = watch-waits known constructs lost_twice started

two_waits : powers 1 lost_twice ≡ 1 ∷ 2 ∷ []
unfolding powers
two_waits = refl

abbrev reconnected : Registry
reconnected =
    (watch known constructs (lost_twice ++ connects known constructs next_rows lost) first_backoff
      started).registry

-- The task of "b" runs, and no other.
reconnected-running : reconnected.running ≡ (1, codes "t:b") ∷ []
unfolding runs watch attempt disconnected listen await
reconnected-running = refl

-- A message whose tenant is not a UUID reloads nothing, and one that cannot be decoded ends the
-- round.
abbrev messages : List Event
messages =
    other
    ∷ pmessage (some (codes "omur:providers:updated:t")) failed [] []
    ∷ pmessage none failed [] []
    ∷ []

messages-waits :
    (watch known constructs
      ((subscribed (rows next_rows) [] [] messages closed, []) ∷ [])
      first_backoff
      started).waits
    ≡ 1 ∷ []
unfolding runs watch attempt disconnected listen await
messages-waits = refl

channel-last_part : last_part [] (codes "omur:providers:updated:t") ≡ codes "t"
unfolding last_part
channel-last_part = refl

backends :
    (backend none (some (codes "rediss")) ≡ codes "postgres")
    × (started_task (backend (some (codes "")) (some (codes "redis"))) ≡ subscribe_valkey)
unfolding backend backend_from_env started_task text_beq
backends = (refl, refl)

abbrev quiet_poll : Poll
quiet_poll = record {
  stopped = false;
  waiting = (0, crashed) ∷ [];
  answer = rows next_rows;
  fetching = [];
  cancelling = [];
}

stop_leaves_none_example :
    let polls : List Poll ⊎ Rounds = inl (quiet_poll ∷ quiet_poll ∷ []) in
    let a = rows (row (codes "a") ∷ []) in
    let r = looped known constructs polls (start known constructs a [] new).0 in
    ((i : ℕ) → lookup i (stop [] r).running ≡ none)
    × ((i j : ℕ) (k : Text) → lookup i r.running ≡ some k → lookup j r.running ≡ some k → i ≡ j)
stop_leaves_none_example =
    stop_leaves_none known constructs (rows (row (codes "a") ∷ [])) [] []
      (inl (quiet_poll ∷ quiet_poll ∷ []))

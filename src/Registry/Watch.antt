-- ===== src/Registry/Watch.antt =====
-- omkit/provider/registry.py: `_poll_loop` and `_subscribe_valkey`, and which of them `start` takes.
-- The loops recur on the list of what their waits bring. The subscription is cancelled while it
-- waits for a message; the other places where it awaits last as long as a query. The channel of a
-- message is `none` if its decoding raises. Backoffs are in seconds.
use omkit_python.Prelude.{
  ℕ, ◌*◌, Bool, true, false, not, ◌||◌, Option, none, some, List, [], ◌∷◌, ◌++◌, if◌then◌else◌, ltb,
  ◌==◌, nat_eq,
}
use omkit_python.Prelude.Text.{Text, codes, text_eq, is_empty}
use omkit_python.Registry.{Row, Registry, Ending, Answer, await, reconcile_all, reload_tenant}

abbrev pub postgres : Text
postgres = codes "postgres"

abbrev pub redis : Text
redis = codes "redis"

-- `_backend_from_env`, on the variable `PROVIDERS_BACKEND`.
unfoldable pub backend_from_env : Option Text → Text
backend_from_env none = postgres
backend_from_env (some v) = if v == postgres || v == redis then v else postgres

-- `backend or _backend_from_env()`
unfoldable pub backend : Option Text → Option Text → Text
unfolding backend_from_env
backend none env = backend_from_env env
backend (some b) env = if is_empty b then backend_from_env env else b

pub data Task : Type 0 where
  subscribe_valkey poll_loop : Task

-- The task that `start` creates.
unfoldable pub started_task : Text → Task
started_task b = if b == redis then subscribe_valkey else poll_loop

-- `channel.split(":")[-1]`, on the part that was read since the last colon.
unfoldable pub last_part : Text → Text → Text
last_part part [] = part
last_part part (c ∷ s) = if c == b':' then last_part [] s else last_part (part ++ (c ∷ [])) s

-- What a wait of `_poll_loop` brings: tasks that end, and a poll unless `_stop` is set.
pub record Poll : Type 0 where
  pub stopped : Bool
  pub waiting : List (ℕ × Ending)
  pub answer : Answer
  pub fetching : List (ℕ × Ending)
  pub cancelling : List (ℕ × Ending)

-- What `pubsub.listen()` brings, and the answer to what follows from it.
pub data Event : Type 0 where
  meanwhile : List (ℕ × Ending) → Event
  other : Event
  pmessage : Option Text → Answer → (cancelling fetching : List (ℕ × Ending)) → Event

-- How the messages end: with the generator, an exception of it, or the cancellation of the task.
pub data End : Type 0 where
  closed lost abandoned : End

-- One round of the endless loop of `_subscribe_valkey`.
pub data Attempt : Type 0 where
  unreachable : Attempt
  subscribed : Answer → (fetching cancelling : List (ℕ × Ending)) → List Event → End → Attempt

-- How a round ends.
pub data Then : Type 0 where
  again leave : Then
  sleep : ℕ → Then

pub record Watch : Type 0 where
  pub registry : Registry
  pub backoff : ℕ
  pub waits : List ℕ
  pub returned : Bool

-- `min(backoff * 2, 60.0)`
unfoldable pub double : ℕ → ℕ
double b = if ltb 60 (b * 2) then 60 else b * 2

-- The handler of exceptions, from the backoff that it finds.
unfoldable pub disconnected : ℕ → Registry → Registry × (ℕ × Then)
unfolding double
disconnected b r = (r, (double b, sleep b))

unfoldable pub ended : End → Registry → Registry × (ℕ × Then)
unfolding disconnected
ended closed r = (r, (1, again))
ended lost r = disconnected 1 r
ended abandoned r = (r, (1, leave))

module _ (known : Text → Bool) (constructs : Row → Bool) where
  -- Where a reconciliation raises, that is only logged.
  unfoldable pub poll_rounds : List Poll → Registry → Registry × Bool
  unfolding await reconcile_all
  poll_rounds [] r = (r, false)
  poll_rounds (p ∷ ps) r =
      let r' = await p.waiting r in
      let rest =
        poll_rounds ps (reconcile_all known constructs p.answer p.fetching p.cancelling r').0 in
      if p.stopped then (r', true) else rest

  -- The loop over the messages; the Boolean is `false` if its body raised.
  unfoldable pub listen : List Event → Registry → Registry × Bool
  unfolding await reload_tenant last_part
  listen [] r = (r, true)
  listen (meanwhile es ∷ ms) r = listen ms (await es r)
  listen (other ∷ ms) r = listen ms r
  listen (pmessage none a es es' ∷ ms) r = (r, false)
  listen (pmessage (some channel) a es es' ∷ ms) r =
      let (r', returned) = reload_tenant known constructs (last_part [] channel) a es es' r in
      let rest = listen ms r' in if returned then rest else (r', false)

  unfoldable pub attempt : Attempt → ℕ → Registry → Registry × (ℕ × Then)
  unfolding disconnected reconcile_all listen ended
  attempt unreachable b r = disconnected b r
  attempt (subscribed a es es' ms e) b r =
      let (r', reconciled) = reconcile_all known constructs a es es' r in
      let (r'', listened) = listen ms r' in
      if not reconciled
      then disconnected 1 r'
      else if not listened
      then disconnected 1 r''
      else ended e r''

  -- The rounds, each with the tasks that end before the next one, and the waits between them.
  unfoldable pub watch : List (Attempt × List (ℕ × Ending)) → ℕ → Registry → Watch
  unfolding attempt await
  watch [] b r = record { registry = r; backoff = b; waits = []; returned = false }
  watch ((a, es) ∷ rounds) b r =
      let (r', (b', then_)) = attempt a b r in
      let rest = watch rounds b' (await es r') in
      elim then_ [
        | again ↦ rest
        | leave ↦ record { registry = r'; backoff = b'; waits = []; returned = true }
        | sleep s ↦ record rest { waits = s ∷ rest.waits }
      ]

-- `_subscribe_valkey` starts with this backoff.
abbrev pub first_backoff : ℕ
first_backoff = 1

-- ===== src/Settings/Live.antt =====
-- omkit/settings.py: secrets, the warnings about values, `start` and `stop`, and the two tasks that
-- keep the cache fresh. The tasks recur on the list of what their waits bring. Parameters are
-- `decrypt_value`, which may raise, `str` of a column that is no text, and the white space of
-- Unicode. A manager is started once at a time.
use omkit_python.Prelude.{
  ℕ, Bool, true, false, not, ◌&&◌, ◌||◌, Option, none, some, List, [], ◌∷◌, ◌==◌, if◌then◌else◌,
}
use omkit_python.Prelude.Text.{Text, Bytes, codes, text_eq, is_empty, starts_with}
use omkit_python.Prelude.Dict.{Dict, lookup, is_some}
use omkit_python.Prelude.Exceptions.{Result, ok, raise}
use omkit_python.Json.{Value, null, str, Column, text, value}
use omkit_python.Sanitize.{strip, reverse_onto}
use omkit_python.Valkey.{occurs}
use omkit_python.Settings.{Table, Manager, load_from_pool, load_from_db, poll_once, handle_message}

-- `_backend_from_env`; `none` where it raises ValueError.
unfoldable pub backend_from_env : Option Text → Option Text
backend_from_env none = some (codes "postgres")
backend_from_env (some v) = if v == codes "postgres" || v == codes "redis" then some v else none

-- `get_secret`, on the rows of the table.
module _ {E : Type 0} (decrypt_value : Text → Text → Result E Text) (repr : Column → Text) where
  unfoldable pub to_str : Column → Text
  to_str (text s) = s
  to_str (value (str s)) = s
  to_str c = repr c

  abbrev decrypted : Result E Text → Option Text
  decrypted (ok s) = some s
  decrypted (raise e) = none

  unfoldable pub get_secret : Text → (encryption_key : Text) → Table → Option Text
  unfolding to_str
  get_secret k encryption_key t = elim (lookup k t) [
    | none ↦ none
    | some s ↦
        if s.is_secret then decrypted (decrypt_value (to_str s.value_json) encryption_key) else none
  ]

pub data Warning : Type 0 where
  is_null is_empty_text invalid_json : Warning

abbrev ends_with : Text → Text → Bool
ends_with p s = starts_with p (reverse_onto [] s)

-- `{...}` or `[...]`
unfoldable pub looks_like_json : Text → Bool
unfolding starts_with
looks_like_json s =
    (starts_with (codes "{") s && ends_with (codes "}") s)
    || (starts_with (codes "[") s && ends_with (codes "]") s)

module _ (space : ℕ → Bool) (loads : Text → Option Value) where
  -- What `_validate` warns of for one setting.
  unfoldable pub warning : Text → Value → Option Warning
  unfolding strip occurs looks_like_json
  warning k null = some is_null
  warning k (str s) =
      let stripped = strip space s in
      if is_empty stripped && not (occurs (codes "api_key") k) && not (occurs (codes "token") k)
      then some is_empty_text
      else if looks_like_json stripped && not (is_some (loads stripped))
      then some invalid_json
      else none
  warning k v = none

  unfoldable pub validate : Dict Text Value → List (Text × Warning)
  unfolding warning
  validate [] = []
  validate ((k, v) ∷ d) =
      let rest = validate d in elim (warning k v) [ none ↦ rest | some w ↦ (k, w) ∷ rest ]

pub record Setup : Type 0 where
  pub has_pool : Bool
  pub valkey_url : Text
  pub env : Option Text

-- The manager, the event `_stop`, set or not, if it was made, and whether the tasks run.
pub record Service : Type 0 where
  pub manager : Manager
  pub stop_event : Option Bool
  pub subscribing : Bool
  pub polling : Bool

abbrev pub constructed : Manager → Service
constructed m = record { manager = m; stop_event = none; subscribing = false; polling = false }

unfoldable pub backend : Setup → Option Text
unfolding backend_from_env
backend u =
    if u.has_pool
    then backend_from_env u.env
    else some (if is_empty u.valkey_url then codes "postgres" else codes "redis")

-- `if self._stop is None: self._stop = asyncio.Event()`
unfoldable pub ensure_event : Option Bool → Option Bool
ensure_event none = some false
ensure_event (some b) = some b

-- The tasks of `start`.
unfoldable pub launch : Setup → Text → Service → Service
launch u b s =
    if b == codes "redis" && not (is_empty u.valkey_url)
    then record s { subscribing = true }
    else if u.has_pool
    then record s { polling = true }
    else s

unfoldable pub stop : Service → Service
stop s = elim s.stop_event [
  | none ↦ s
  | some b ↦ record s { stop_event = some true; subscribing = false; polling = false }
]

-- What `pubsub.listen()` brings: a message with what `json.loads` gives of it, if it does.
pub data Event : Type 0 where
  other : Event
  message : Option Value → Event

-- How the messages end: the generator returns, it raises, or the task is cancelled.
pub data End : Type 0 where
  closed lost abandoned : End

-- One task `_subscribe`.
pub data Attempt : Type 0 where
  unreachable : Attempt
  subscribed : List Event → End → Attempt

-- Whether it creates the next task, after five seconds.
unfoldable pub again : End → Bool
again closed = false
again lost = true
again abandoned = false

module _ (decode : Bytes → Option Text) (loads : Text → Option Value) where
  -- `start`, on what the pool or the database answers; the Boolean is `false` where it raised.
  unfoldable pub start :
      Setup → Option Table → Option (Dict Text (Value × Bool)) → Service → Service × Bool
  unfolding load_from_pool load_from_db ensure_event backend launch
  start u pool_rows db_rows s =
      let m =
        if u.has_pool
        then load_from_pool decode loads pool_rows s.manager
        else load_from_db db_rows s.manager in
      let s' = record s { manager = m; stop_event = ensure_event s.stop_event } in
      elim (backend u) [ none ↦ (s', false) | some b ↦ (launch u b s', true) ]

  module _ {W : Type 0} (call : ℕ → Value → W → W) where
    -- `_poll_loop`, from whether the event is set: each wait tells whether it was set meanwhile.
    -- The Boolean tells whether the loop has returned.
    unfoldable pub poll_task :
        Bool → List (Bool × Option Table) → Manager → W → (Manager × W) × Bool
    unfolding poll_once
    poll_task true waits m w = ((m, w), true)
    poll_task false [] m w = ((m, w), false)
    poll_task false ((set, t) ∷ waits) m w =
        let (m', w') = poll_once decode loads call t m w in
        let rest = poll_task false waits m' w' in if set then ((m, w), true) else rest

    -- The loop over the messages; the Boolean is `false` if its body raised.
    unfoldable pub listen : List Event → Manager → W → (Manager × W) × Bool
    unfolding handle_message
    listen [] m w = ((m, w), true)
    listen (other ∷ ms) m w = listen ms m w
    listen (message p ∷ ms) m w =
        let (returned, (m', w')) = handle_message decode loads call p m w in
        let rest = listen ms m' w' in if returned then rest else ((m', w'), false)

    -- The tasks, each of which creates the next; the Boolean tells whether one still runs.
    unfoldable pub subscribe : List Attempt → Manager → W → (Manager × W) × Bool
    unfolding listen again
    subscribe [] m w = ((m, w), true)
    subscribe (unreachable ∷ as_) m w = subscribe as_ m w
    subscribe (subscribed ms e ∷ as_) m w =
        let ((m', w'), returned) = listen ms m w in
        let rest = subscribe as_ m' w' in
        if not returned || again e then rest else ((m', w'), false)

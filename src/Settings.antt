-- ===== src/Settings.antt =====
-- omkit/settings.py: the cache of `SettingsManager`, filled by the pool, by the database with its
-- cache file, and by messages. The table `app_settings` maps a key to its other columns. Parameters
-- are `json.loads`, the decoding of bytes, and the callbacks, which act on a world of their own and
-- whose exceptions are only logged. The cache file is given by what `json.load` reads from it.
pub mod Live
pub mod Started
pub mod Restart
pub mod Messages
pub mod Secrets
pub mod Polling
pub mod Fresh
pub mod CacheFile
mod Tests
mod LiveTests
use omkit_python.Prelude.{
  ℕ, Bool, true, false, not, Option, none, some, List, [], ◌∷◌, ◌++◌, if◌then◌else◌, ltb, elem,
}
use omkit_python.Prelude.Text.{Text, Bytes, codes, text_eq}
use omkit_python.Prelude.Dict.{Dict, lookup, insert, erase}
use omkit_python.Json.{Value, null, str, obj, Column, raw, text, value, get_field, truthy}

pub record Setting : Type 0 where
  pub value_json : Column
  pub is_secret : Bool
  pub updated_at : ℕ

abbrev pub Table : Type 0
Table = Dict Text Setting

pub record Manager : Type 0 where
  pub cache : Dict Text Value
  pub secret_keys : List Text
  pub last_seen : Option ℕ
  pub listeners : Dict Text (List ℕ)
  pub file : Option (Dict Text Value)

abbrev pub empty : Manager
empty = record { cache = []; secret_keys = []; last_seen = none; listeners = []; file = none }

-- `get`
unfoldable pub get : Text → Value → Manager → Value
get k default m = elim (lookup k m.cache) [ none ↦ default | some v ↦ v ]

-- `self._listeners.get(key, [])`
unfoldable pub callbacks : Text → Manager → List ℕ
callbacks k m = elim (lookup k m.listeners) [ none ↦ [] | some l ↦ l ]

unfoldable pub on_change : Text → ℕ → Manager → Manager
unfolding callbacks
on_change k callback m = record m {
  listeners = insert k (callbacks k m ++ (callback ∷ [])) m.listeners;
}

-- `if latest is None or updated_at > latest`
unfoldable pub later : Option ℕ → ℕ → Option ℕ
later none t = some t
later (some s) t = if ltb s t then some t else some s

unfoldable pub save_latest : Option ℕ → Manager → Manager
save_latest none m = m
save_latest (some t) m = record m { last_seen = some t }

-- `WHERE updated_at > $1`; with NULL it selects nothing.
unfoldable pub newer : Option ℕ → Setting → Bool
newer none s = false
newer (some t) s = ltb t s.updated_at

unfoldable pub select_newer : Option ℕ → Table → Table
unfolding newer
select_newer seen [] = []
select_newer seen ((k, s) ∷ t) =
    let rest = select_newer seen t in if newer seen s then (k, s) ∷ rest else rest

-- `ORDER BY updated_at ASC`
unfoldable pub insert_by_time : Text × Setting → Table → Table
insert_by_time p [] = p ∷ []
insert_by_time p (q ∷ t) =
    if ltb q.1.updated_at p.1.updated_at then q ∷ insert_by_time p t else p ∷ q ∷ t

unfoldable pub oldest_first : Table → Table
unfolding insert_by_time
oldest_first [] = []
oldest_first (p ∷ t) = insert_by_time p (oldest_first t)

-- `_write_cache`
unfoldable pub public_part : List Text → Dict Text Value → Dict Text Value
public_part secrets [] = []
public_part secrets ((k, v) ∷ d) =
    let rest = public_part secrets d in if elem k secrets then rest else (k, v) ∷ rest

unfoldable pub write_cache : Manager → Manager
unfolding public_part
write_cache m = record m { file = some (public_part m.secret_keys m.cache) }

-- `dict.update`
unfoldable pub update : Dict Text Value → Dict Text Value → Dict Text Value
update d [] = d
update d ((k, v) ∷ e) = update (insert k v d) e

unfoldable pub read_cache : Manager → Manager
unfolding update
read_cache m = elim m.file [ none ↦ m | some f ↦ record m { cache = update m.cache f } ]

-- The loop of `_load_from_db`, whose rows have the values as JSON already.
unfoldable pub load_rows : Dict Text (Value × Bool) → Manager → Manager
load_rows [] m = m
load_rows ((k, (v, secret)) ∷ t) m = load_rows t (
    if secret
    then record m { secret_keys = k ∷ m.secret_keys }
    else record m { cache = insert k v m.cache })

-- `_load_from_db`; `none` stands for a database that raises.
unfoldable pub load_from_db : Option (Dict Text (Value × Bool)) → Manager → Manager
unfolding load_rows write_cache read_cache
load_from_db none m = read_cache m
load_from_db (some t) m = write_cache (load_rows t m)

module _ (decode : Bytes → Option Text) (loads : Text → Option Value) where
  -- A text that is no JSON is a value as it is.
  unfoldable pub text_value : Text → Value
  text_value s = elim (loads s) [ none ↦ str s | some v ↦ v ]

  -- `none` where the decoding raises.
  unfoldable pub parse_value : Column → Option Value
  unfolding text_value
  parse_value (raw b) = elim (decode b) [ none ↦ none | some s ↦ some (text_value s) ]
  parse_value (text s) = some (text_value s)
  parse_value (value v) = some v

  -- The loop of `_load_from_pool`; `none` if it raised, with what it had done.
  unfoldable pub load_loop : Option ℕ → Table → Manager → Option (Option ℕ) × Manager
  unfolding later parse_value
  load_loop latest [] m = (some latest, m)
  load_loop latest ((k, s) ∷ t) m =
      let latest' = later latest s.updated_at in
      if s.is_secret
      then load_loop latest' t (record m { secret_keys = k ∷ m.secret_keys })
      else elim (parse_value s.value_json) [
        | none ↦ (none, m)
        | some v ↦ load_loop latest' t (record m { cache = insert k v m.cache })
      ]

  unfoldable pub load_from_pool : Option Table → Manager → Manager
  unfolding load_loop save_latest
  load_from_pool none m = m
  load_from_pool (some t) m =
      let (latest, m') = load_loop m.last_seen t m in
      elim latest [ none ↦ m' | some l ↦ save_latest l m' ]

  module _ {W : Type 0} (call : ℕ → Value → W → W) where
    unfoldable pub fire : List ℕ → Value → W → W
    fire [] v w = w
    fire (c ∷ cs) v w = fire cs v (call c v w)

    -- The loop of `_poll_once`.
    unfoldable pub poll_loop : Option ℕ → Table → Manager → W → Option (Option ℕ) × Manager × W
    unfolding later parse_value fire callbacks
    poll_loop latest [] m w = (some latest, m, w)
    poll_loop latest ((k, s) ∷ t) m w =
        let latest' = later latest s.updated_at in
        if s.is_secret then poll_loop latest' t m w else elim (parse_value s.value_json) [
          | none ↦ (none, m, w)
          | some v ↦
              poll_loop latest' t (record m { cache = insert k v m.cache })
                (fire (callbacks k m) v w)
        ]

    unfoldable pub poll_once : Option Table → Manager → W → Manager × W
    unfolding select_newer oldest_first poll_loop save_latest
    poll_once none m w = (m, w)
    poll_once (some t) m w =
        let (latest, m', w') =
          poll_loop m.last_seen (oldest_first (select_newer m.last_seen t)) m w in
        elim latest [ none ↦ (m', w') | some l ↦ (save_latest l m', w') ]

    -- The rest of `_handle_message`, for a key that is a text.
    unfoldable pub apply_change : Text → Option Value → Bool → Manager → W → Manager × W
    unfolding write_cache fire callbacks
    apply_change key (some v) changed m w =
        let m' = write_cache (record m { cache = insert key v m.cache }) in
        (m', fire (callbacks key m') v w)
    apply_change key none changed m w =
        let m' = write_cache (if changed then record m { cache = erase key m.cache } else m) in
        (m', fire (callbacks key m') null w)

    -- `_handle_message`, on the payload that `json.loads` gave, if it did. The Boolean is `false`
    -- where it raised: for a payload that is no object. A key that is no text is taken for absent.
    unfoldable pub handle_message : Option Value → Manager → W → Bool × (Manager × W)
    unfolding apply_change get_field
    handle_message none m w = (true, (m, w))
    handle_message (some (obj fs)) m w = elim (get_field (codes "key") fs) [
      | some (str (c ∷ k)) ↦
          let changed : Bool = elim (get_field (codes "changed") fs) [
            | none ↦ false
            | some v ↦ truthy v
          ] in
          (true, apply_change (c ∷ k) (get_field (codes "value") fs) changed m w)
      | _ ↦ (true, (m, w))
    ]
    handle_message _ m w = (false, (m, w))

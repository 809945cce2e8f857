-- ===== src/Settings/Tests.antt =====
-- Witnesses and tests for the settings manager.
use omkit_python.Prelude.{ℕ, ◌≡◌, refl, Bool, true, false, Option, none, some, List, [], ◌∷◌, arith}
use omkit_python.Prelude.Text.{Text, Bytes, codes, text_eq, text_beq}
use omkit_python.Prelude.Dict.{Dict, lookup, insert, erase}
use omkit_python.Json.{Value, null, str, obj, field, end, value, get_field, boolean}
use omkit_python.Settings.{
  Setting, Table, Manager, empty, on_change, load_from_pool, load_from_db, poll_once,
  handle_message, get, select_newer, oldest_first, parse_value,
}
use omkit_python.Settings.Polling.{IsReadable, picked, batch, polled, latest_of, poll_once_lookup}
use omkit_python.Settings.Fresh.{
  IsSynced, here, next, writes, poll_catches_up, poll_each, polls_blind,
}
use omkit_python.Settings.CacheFile.{restart-lookup}

abbrev decode : Bytes → Option Text
decode b = some b

abbrev loads : Text → Option Value
loads s = none

-- The callbacks keep a record of their calls.
abbrev call : ℕ → Value → List ℕ → List ℕ
call c v w = c ∷ w

abbrev setting : Text → ℕ → Setting
setting s t = record { value_json = value (str s); is_secret = false; updated_at = t }

abbrev table : Table
table = (codes "a", setting (codes "x") 5) ∷ []

abbrev written : Table
written = insert (codes "a") (setting (codes "y") 9) table

runs : Unit {0}
unfolding lookup insert erase text_beq load_from_pool load_from_db poll_once handle_message get
    select_newer oldest_first parse_value on_change get_field latest_of
runs = tt

abbrev manager : Manager
manager = on_change (codes "a") 4 (load_from_pool decode loads (some table) empty)

loaded : (get (codes "a") null manager ≡ str (codes "x")) × (manager.last_seen ≡ some 5)
unfolding runs
loaded = (refl, refl)

called : (polled decode loads call written manager []).1 ≡ 4 ∷ []
unfolding runs
called = refl

message :
    let payload =
      obj (field (codes "key") (str (codes "a")) (field (codes "changed") (boolean true) end)) in
    get (codes "a") null (handle_message decode loads call (some payload) manager []).1.0 ≡ null
unfolding runs
message = refl

written-IsReadable : IsReadable decode loads (select_newer manager.last_seen written)
unfolding runs
written-IsReadable k s e p = ground arith

poll_once_lookup-tested :
    (lookup (codes "a") (polled decode loads call written manager []).0.cache
      ≡ picked decode loads
          (lookup (codes "a") (select_newer manager.last_seen written))
          (lookup (codes "a") manager.cache))
    × ((polled decode loads call written manager []).0.last_seen
        ≡ latest_of manager.last_seen (batch decode loads call manager written))
unfolding runs
poll_once_lookup-tested =
    poll_once_lookup decode loads call (codes "a") written manager [] (refl, tt) written-IsReadable

synced : IsSynced decode loads table manager
unfolding runs
synced = record {
  unique = (refl, tt);
  seen = 5;
  last_seen = refl;
  fresh = λ k s e p le. ground arith;
}

poll_catches_up-tested :
    lookup (codes "a") (polled decode loads call written manager []).0.cache
    ≡ some (str (codes "y"))
unfolding runs
poll_catches_up-tested =
    poll_catches_up decode loads call (codes "a") (setting (codes "y") 9) synced
      (next here (writes table manager [] (codes "a") (setting (codes "y") 9) 5 refl (omega arith)))
      written-IsReadable refl refl

polls_blind_example :
    poll_each decode loads call (table ∷ written ∷ []) (load_from_pool decode loads none empty) []
    ≡ (load_from_pool decode loads none empty, [])
unfolding runs
polls_blind_example =
    polls_blind decode loads call (table ∷ written ∷ []) (load_from_pool decode loads none empty) []
      refl

abbrev rows : Dict Text (Value × Bool)
rows = (codes "a", (str (codes "x"), false)) ∷ (codes "k", (str (codes "s"), true)) ∷ []

restart-lookup-tested :
    lookup
      (codes "a")
      (load_from_db none (record empty { file = (load_from_db (some rows) empty).file })).cache
    ≡ some (str (codes "x"))
unfolding runs
restart-lookup-tested = restart-lookup rows empty (codes "a") tt

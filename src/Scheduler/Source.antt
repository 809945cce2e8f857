-- ===== src/Scheduler/Source.antt =====
-- omkit/scheduler/source.py: `PgxProviderSource`, on the rows of the table, and `Scheduler.entries`.
-- Parameters are `json.loads` and the decoding of UTF-8, which may raise.
use omkit_python.Prelude.{
  ◌≡◌, refl, Bool, ◌&&◌, Option, none, some, List, [], ◌∷◌, if◌then◌else◌, ◌==◌, arith, elem, ◌||◌,
}
use omkit_python.Prelude.Text.{Text, Bytes, text_eq}
use omkit_python.Prelude.Dict.{Dict, keys, contains, contains-keys}
use omkit_python.Json.{Value, str, obj, Fields, end, Column, raw, text, value, text_ltb}
use omkit_python.Scheduler.{Provider, Entry}

-- A row of the table; its config may be NULL.
pub record SourceRow : Type 0 where
  pub tenant_id : Text
  pub name : Text
  pub kind : Text
  pub enabled : Bool
  pub config : Option Column

-- A config that is no object counts as the empty one.
unfoldable pub fields_or_empty : Option Value → Fields
fields_or_empty (some (obj fs)) = fs
fields_or_empty _ = end

module _ (decode : Bytes → Option Text) (loads : Text → Option Value) where
  -- `none` where the decoding raises.
  unfoldable pub config_of : Option Column → Option Fields
  unfolding fields_or_empty
  config_of none = some end
  config_of (some (raw b)) = elim (decode b) [
    | none ↦ none
    | some s ↦ some (fields_or_empty (loads s))
  ]
  config_of (some (text s)) = some (fields_or_empty (loads s))
  config_of (some (value (str s))) = some (fields_or_empty (loads s))
  config_of (some (value v)) = some (fields_or_empty (some v))

  -- `WHERE kind = $1 AND enabled = TRUE`
  unfoldable pub select_kind : Text → List SourceRow → List SourceRow
  select_kind kind [] = []
  select_kind kind (r ∷ rs) =
      let rest = select_kind kind rs in if r.kind == kind && r.enabled then r ∷ rest else rest

  -- The loop over the rows.
  unfoldable pub providers_of : List SourceRow → Option (List Provider)
  unfolding config_of
  providers_of [] = some []
  providers_of (r ∷ rs) = elim (config_of r.config) [
    | none ↦ none
    | some cfg ↦
        let provider : Provider = record { tenant_id = r.tenant_id; name = r.name; config = cfg } in
        elim (providers_of rs) [ none ↦ none | some ps ↦ some (provider ∷ ps) ]
  ]

  unfoldable pub fetch_providers : Text → List SourceRow → Option (List Provider)
  unfolding select_kind providers_of
  fetch_providers kind t = providers_of (select_kind kind t)

-- `sorted`, on keys that differ.
unfoldable pub insert_key : Text → List Text → List Text
insert_key k [] = k ∷ []
insert_key k (j ∷ ks) = if text_ltb j k then j ∷ insert_key k ks else k ∷ j ∷ ks

unfoldable pub sorted : List Text → List Text
unfolding insert_key
sorted [] = []
sorted (k ∷ ks) = insert_key k (sorted ks)

-- `entries`
unfoldable pub entries : Dict Text Entry → List Text
unfolding sorted
entries d = sorted (keys d)

insert_key-elem : (i k : Text) (ks : List Text) → elem i (insert_key k ks) ≡ (k == i || elem i ks)
unfolding insert_key
insert_key-elem i k [] = refl
insert_key-elem i k (j ∷ ks) = ground (arith, insert_key-elem i k ks)

sorted-elem : (i : Text) (ks : List Text) → elem i (sorted ks) ≡ elem i ks
unfolding sorted
sorted-elem i [] = refl
sorted-elem i (k ∷ ks) = ground (arith, insert_key-elem i k (sorted ks), sorted-elem i ks)

-- `entries` names exactly the keys that have an entry.
pub entries-elem : (i : Text) (d : Dict Text Entry) → elem i (entries d) ≡ contains i d
unfolding entries
entries-elem i d = ground (arith, sorted-elem i (keys d), contains-keys i d)

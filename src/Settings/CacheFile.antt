-- ===== src/Settings/CacheFile.antt =====
-- omkit/settings.py: the cache file that stands in for a database that cannot be reached.
use omkit_python.Prelude.{
  ◌≡◌, refl, Bool, true, false, none, some, List, [], ◌∷◌, if◌then◌else◌, arith, elem,
}
use omkit_python.Prelude.Text.{Text, text_eq, text_beq_iff}
use omkit_python.Prelude.Dict.{Dict, lookup, insert, lookup-insert}
use omkit_python.Prelude.Unique.{IsUnique, insert-IsUnique}
use omkit_python.Json.{Value}
use omkit_python.Settings.{
  Manager, empty, public_part, write_cache, update, read_cache, load_rows, load_from_db,
}

public_part-lookup :
    (secrets : List Text) (k : Text) (d : Dict Text Value)
    → lookup k (public_part secrets d) ≡ (if elem k secrets then none else lookup k d)
unfolding public_part lookup
public_part-lookup secrets k [] = ground arith
public_part-lookup secrets k ((j, v) ∷ d) =
    ground (arith, text_beq_iff j k, public_part-lookup secrets k d)

public_part-IsUnique :
    (secrets : List Text) (d : Dict Text Value) → IsUnique d → IsUnique (public_part secrets d)
unfolding public_part
public_part-IsUnique secrets [] u = tt
public_part-IsUnique secrets ((j, v) ∷ d) u =
    ground (arith, u, public_part-lookup secrets j d, public_part-IsUnique secrets d u.1)

update-lookup :
    (k : Text) (d e : Dict Text Value)
    → IsUnique e
    → lookup k (update d e) ≡ elim (lookup k e) [ none ↦ lookup k d | some v ↦ some v ]
unfolding update lookup
update-lookup k d [] u = refl
update-lookup k d ((j, v) ∷ e) u =
    ground
      (arith, text_beq_iff j k, u.0, lookup-insert j k v d, update-lookup k (insert j v d) e u.1)

load_rows-IsUnique :
    (t : Dict Text (Value × Bool)) (m : Manager) → IsUnique m.cache → IsUnique (load_rows t m).cache
unfolding load_rows
load_rows-IsUnique [] m u = u
load_rows-IsUnique ((k, (v, true)) ∷ t) m u =
    load_rows-IsUnique t (record m { secret_keys = k ∷ m.secret_keys }) u
load_rows-IsUnique ((k, (v, false)) ∷ t) m u =
    load_rows-IsUnique t (record m { cache = insert k v m.cache }) (insert-IsUnique k v m.cache u)

-- Let one manager load from the database, and a new one start with its file while the database
-- cannot be reached. For every key that is not known as a secret, the new manager has the value
-- that the old one has, and for one that is a secret it has none.
pub restart-lookup :
    (t : Dict Text (Value × Bool)) (m : Manager) (k : Text)
    → IsUnique m.cache
    → let old = load_from_db (some t) m in
      lookup k (load_from_db none (record empty { file = old.file })).cache
      ≡ (if elem k old.secret_keys then none else lookup k old.cache)
unfolding load_from_db write_cache read_cache lookup
restart-lookup t m k u =
    let old = load_rows t m in
    ground (
      arith,
      update-lookup k [] (public_part old.secret_keys old.cache)
          (public_part-IsUnique old.secret_keys old.cache (load_rows-IsUnique t m u)),
      public_part-lookup old.secret_keys k old.cache,
    )

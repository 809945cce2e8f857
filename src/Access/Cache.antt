-- ===== src/Access/Cache.antt =====
-- omkit/featureflags/postgres.py: the snapshot through refreshes that fail, and how old it can be.
use omkit_python.Prelude.{
  ℕ, ◌≡◌, refl, Option, none, some, List, [], ◌∷◌, if◌then◌else◌, arith, ◌==◌,
}
use omkit_python.Prelude.Text.{Text, text_eq}
use omkit_python.Prelude.Dict.{Dict, lookup, erase, lookup-erase}
use omkit_python.Access.{Role, Flag, PostgresStore, get, refresh, invalidate, permits, allowed}

-- What is done to a store: refreshes that end at a time, and invalidations.
pub data Action : Type 0 where
  refreshes : ℕ → Option (Dict Text Flag) → Action
  invalidates : Text → Action

unfoldable pub act : Action → PostgresStore → PostgresStore
unfolding refresh invalidate
act (refreshes now answer) s = refresh now answer s
act (invalidates k) s = invalidate k s

unfoldable pub run : List Action → PostgresStore → PostgresStore
unfolding act
run [] s = s
run (a ∷ more) s = run more (act a s)

-- What the last refresh that succeeded, and the invalidations since, leave of a flag.
unfoldable pub latest : Text → Option Flag → List Action → Option Flag
latest k f [] = f
latest k f (refreshes now none ∷ more) = latest k f more
latest k f (refreshes now (some fresh) ∷ more) = latest k (lookup k fresh) more
latest k f (invalidates j ∷ more) = latest k (if j == k then none else f) more

run-latest :
    (k : Text) (more : List Action) (s : PostgresStore)
    → lookup k (run more s).flags ≡ latest k (lookup k s.flags) more
unfolding run latest
run-latest k [] s = refl
run-latest k (refreshes now none ∷ more) s = run-latest k more s
run-latest k (refreshes now (some fresh) ∷ more) s =
    run-latest k more (record s { flags = fresh; last_refreshed = now })
run-latest k (invalidates j ∷ more) s =
    ground
      (arith, lookup-erase j k s.flags, run-latest k more (record s { flags = erase j s.flags }))

-- Through any refreshes, failed ones too, and invalidations, `allowed` decides by the flag that the
-- last refresh that succeeded had, and denies if the flag was invalidated since.
pub allowed_latest :
    (now : ℕ) (k : Text) (caller : List Role) (more : List Action) (s : PostgresStore)
    → allowed now k caller (run more s) ≡ permits (latest k (lookup k s.flags) more) caller
unfolding allowed get
allowed_latest now k caller more s = rw (run-latest k more s)

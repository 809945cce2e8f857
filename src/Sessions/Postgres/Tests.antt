-- ===== src/Sessions/Postgres/Tests.antt =====
-- Witnesses and tests for the session store on Postgres.
use omkit_python.Prelude.{
  ℕ, ◌<◌, ◌≡◌, refl, true, Option, none, some, List, [], ◌∷◌, elem, All, ◌==◌, ◌||◌, if◌then◌else◌,
}
use omkit_python.Prelude.Text.{Text, codes, text_eq, text_beq}
use omkit_python.Prelude.Dict.{lookup, insert, erase}
use omkit_python.Prelude.Exceptions.{ok, ◌>>=◌}
use omkit_python.Json.{Value, obj, end, field, str, Column, value}
use omkit_python.Sessions.{Session}
use omkit_python.Sessions.Postgres.{Row, Table, put, get, delete, list}
use omkit_python.Sessions.Postgres.Lifetime.{get-put}
use omkit_python.Sessions.Postgres.Isolation.{owned, get_isolated, delete_isolated}
use omkit_python.Sessions.Postgres.Listing.{tokens, NewestFirst, shown, list_exact}

abbrev payload : Value
payload = obj (field (codes "k") (str (codes "v")) end)

abbrev loads : List ℕ → Option Value
loads s = none

-- Two spellings of one UUID, and another one.
as_uuid : Text → Option Text
as_uuid s =
    if s == codes "A" || s == codes "a"
    then some (codes "a")
    else if s == codes "b"
    then some (codes "b")
    else none

abbrev jsonb : Text → Column
jsonb s = value payload

abbrev session : Session
session = record {
  token = codes "x";
  tenant_id = codes "A";
  payload = payload;
  expires_at = 50;
  created_at = 3;
}

abbrev row : Text → ℕ → Row
row id created_at = record {
  tenant_id = id;
  payload = value payload;
  created_at = created_at;
  expires_at = 50;
}

abbrev table : Table
table = (codes "y", row (codes "b") 2) ∷ (codes "z", row (codes "a") 1) ∷ []

abbrev stored : Session
stored = record session { tenant_id = codes "a"; created_at = 9 }

runs : Unit {0}
unfolding as_uuid lookup insert erase text_beq put get delete list
runs = tt

-- The session of tenant "A" is found under the canonical "a" only.
get-put_example :
    (put loads loads as_uuid jsonb 9 session table
      >>= get loads loads as_uuid jsonb 20 (codes "x") (some (codes "a")))
    ≡ ok stored
unfolding runs
get-put_example =
    get-put loads loads as_uuid jsonb 9 20 session (some (codes "a")) (codes "a") table refl refl

get_isolated-tested :
    (stored.tenant_id ≡ codes "a")
    × (stored.token ≡ codes "x")
    × (20 < stored.expires_at)
    × (owned (codes "a") (lookup (codes "x") ((codes "x", row (codes "a") 9) ∷ table)) ≡ true)
unfolding runs
get_isolated-tested =
    get_isolated loads loads as_uuid jsonb 20 (codes "x") (codes "a")
      ((codes "x", row (codes "a") 9) ∷ table) stored refl

delete_isolated-tested :
    (delete loads loads as_uuid jsonb (codes "y") (some (codes "A")) table
      >>= (λ t'. ok (lookup (codes "y") t')))
    ≡ ok (some (row (codes "b") 2))
unfolding runs
delete_isolated-tested =
    delete_isolated loads loads as_uuid jsonb (codes "y") (codes "A") (codes "a") (codes "y") table
      refl

abbrev listed : List Session
listed = record stored { token = codes "z"; created_at = 1 } ∷ []

list_exact_example :
    (elem (codes "z") (tokens listed) ≡ shown 20 (codes "a") (lookup (codes "z") table))
    × All (λ s. s.tenant_id ≡ codes "a") listed
    × NewestFirst listed
unfolding runs
list_exact_example =
    list_exact loads loads as_uuid jsonb 20 (codes "A") (codes "a") (codes "z") table listed refl
      (refl, (refl, tt)) refl

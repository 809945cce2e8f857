-- ===== src/Access/Tests.antt =====
-- Witnesses and tests for roles and feature flags.
use omkit_python.Prelude.{ℕ, ◌≡◌, refl, true, false, Option, none, some, List, [], ◌∷◌, elem}
use omkit_python.Prelude.Text.{Text, codes, text_eq, text_beq, starts_with}
use omkit_python.Prelude.Dict.{Dict, lookup, erase}
use omkit_python.Json.{
  Value, boolean, int, str, arr, obj, nil, cons, field, end, Column, text, value, get_field,
}
use omkit_python.Prelude.Int.{pos}
use omkit_python.Access.{
  admin, support, user, role_eq, role_value, role_of, group_roles, roles_from_groups, PostgresStore,
  load_from_pool, allowed, refresh, validate_roles, parse_roles, permits, require_role, with_roles,
}
use omkit_python.Access.Groups.{NoRepeats, roles_from_groups_exact}
use omkit_python.Access.Cache.{refreshes, invalidates, run, latest, allowed_latest}

abbrev groups : List Text
groups = codes "omur-user" ∷ codes "omur-admin" ∷ codes "other" ∷ codes "omur-user" ∷ []

runs : Unit {0}
unfolding text_beq starts_with lookup erase get_field role_value role_of group_roles
    roles_from_groups load_from_pool allowed refresh validate_roles parse_roles permits require_role
    with_roles run latest
runs = tt

groups-roles : roles_from_groups (some groups) ≡ user ∷ admin ∷ []
unfolding runs
groups-roles = refl

roles_from_groups_exact-tested :
    (elem admin (roles_from_groups (some groups)) ≡ true)
    × NoRepeats (roles_from_groups (some groups))
unfolding runs
roles_from_groups_exact-tested = roles_from_groups_exact admin groups

abbrev flag_x : Value
flag_x = obj (
    field (codes "enabled") (boolean true) (
      field (codes "roles")
        (arr (cons (str (codes "root")) (cons (int (pos 3)) (cons (str (codes "support")) nil))))
        end))

abbrev loads : List ℕ → Option Value
loads s = none

abbrev rows : Dict Text Column
rows = (codes "flag.x", value flag_x) ∷ (codes "flag.y", text (codes "{")) ∷ []

abbrev store : PostgresStore
store = record { ttl = 30; flags = []; last_refreshed = 0 }

abbrev filled : PostgresStore
filled = refresh 5 (some (load_from_pool loads loads rows)) store

denials :
    (allowed 6 (codes "flag.x") (admin ∷ []) filled ≡ false)
    × (allowed 6 (codes "flag.y") (support ∷ []) filled ≡ false)
    × (allowed 6 (codes "flag.z") (support ∷ []) filled ≡ false)
    × (validate_roles (codes "user" ∷ codes "root" ∷ []) ≡ codes "root")
unfolding runs
denials = (refl, refl, refl, refl)

nested :
    with_roles (admin ∷ []) (λ inner. (require_role admin inner, inner)) (user ∷ [])
    ≡ (true, user ∷ [])
unfolding runs
nested = refl

allowed-run :
    allowed 50
      (codes "flag.x")
      (support ∷ [])
      (run (refreshes 40 none ∷ invalidates (codes "flag.y") ∷ []) filled)
    ≡ true
unfolding runs
allowed-run =
    allowed_latest 50 (codes "flag.x") (support ∷ [])
      (refreshes 40 none ∷ invalidates (codes "flag.y") ∷ []) filled

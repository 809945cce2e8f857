-- ===== src/Access.antt =====
-- omkit/auth/roles.py and omkit/featureflags: roles from groups, the roles of a context, and flags
-- that are open to roles. The context variable is an argument; `json.loads` and the table are
-- parameters.
pub mod Groups
pub mod Allowed
pub mod Cache
mod Tests
use omkit_python.Prelude.{
  ℕ, ◌-◌, Bool, true, false, not, ◌&&◌, ◌||◌, Option, none, some, List, [], ◌∷◌, ◌++◌,
  if◌then◌else◌, ltb, eqb, ◌==◌, ◌≡◌, ◌↔◌, elem, arith, refl, Eq, inl, inr,
}
use omkit_python.Prelude.Text.{Text, Bytes, codes, text_eq, starts_with}
use omkit_python.Prelude.Dict.{Dict, lookup, insert, erase}
use omkit_python.Json.{
  Value, str, arr, obj, Items, nil, cons, Fields, Column, raw, text, value, truthy, get_field,
}

pub data Role : Type 0 where
  admin support user : Role

abbrev pub same_role : Role → Role → Bool
same_role admin admin = true
same_role support support = true
same_role user user = true
same_role _ _ = false

pub same_role_iff : (r q : Role) → (same_role r q ≡ true) ↔ (r ≡ q)
same_role_iff admin admin = (λ h. refl, λ h. refl)
same_role_iff support support = (λ h. refl, λ h. refl)
same_role_iff user user = (λ h. refl, λ h. refl)
same_role_iff admin support = ground arith
same_role_iff admin user = ground arith
same_role_iff support admin = ground arith
same_role_iff support user = ground arith
same_role_iff user admin = ground arith
same_role_iff user support = ground arith

instance abbrev pub role_eq : Eq Role
role_eq = record { same = same_role; same_iff = same_role_iff }

-- `Role.value`, and `Role(s)` where `s` is in `_KNOWN_ROLE_VALUES`.
unfoldable pub role_value : Role → Text
role_value admin = codes "admin"
role_value support = codes "support"
role_value user = codes "user"

unfoldable pub role_of : Text → Option Role
role_of s =
    if s == codes "admin"
    then some admin
    else if s == codes "support"
    then some support
    else if s == codes "user"
    then some user
    else none

-- `_GROUP_TO_ROLES.get(g, ())`
unfoldable pub group_roles : Text → List Role
group_roles g =
    if g == codes "omur-admin"
    then admin ∷ []
    else if g == codes "omur-support"
    then support ∷ []
    else if g == codes "omur-user"
    then user ∷ []
    else []

-- The inner loop of `roles_from_groups`. Its set `seen` has the roles of the list `out`.
unfoldable pub add_roles : List Role → List Role → List Role
add_roles out [] = out
add_roles out (r ∷ rs) = add_roles (if elem r out then out else out ++ (r ∷ [])) rs

unfoldable pub add_groups : List Role → List Text → List Role
unfolding group_roles add_roles
add_groups out [] = out
add_groups out (g ∷ gs) = add_groups (add_roles out (group_roles g)) gs

unfoldable pub roles_from_groups : Option (List Text) → List Role
unfolding add_groups
roles_from_groups none = []
roles_from_groups (some gs) = add_groups [] gs

-- `has_role`, on the roles of the context.
unfoldable pub has_role : Role → List Role → Bool
has_role want context = elem want context

-- `require_role`: `false` stands for RoleRequiredError.
unfoldable pub require_role : Role → List Role → Bool
unfolding has_role
require_role want context = has_role want context

-- `with_roles`: the block runs with the new roles, and the old ones come back when it ends or
-- raises.
unfoldable pub with_roles :
    {A : Type 0} → List Role → (List Role → A × List Role) → List Role → A × List Role
with_roles roles block context = ((block roles).0, context)

pub record Flag : Type 0 where
  pub enabled : Bool
  pub roles : List Role

abbrev pub deny_all : Flag
deny_all = record { enabled = false; roles = [] }

-- `validate_roles`: the first name that is no role, or the empty text.
unfoldable pub validate_roles : List Text → Text
unfolding role_of
validate_roles [] = []
validate_roles (s ∷ rest) =
    let more = validate_roles rest in elim (role_of s) [ none ↦ s | some r ↦ more ]

unfoldable pub parse_roles : Items → List Role
unfolding role_of
parse_roles nil = []
parse_roles (cons (str s) xs) = elim (role_of s) [
  | none ↦ parse_roles xs
  | some r ↦ r ∷ parse_roles xs
]
parse_roles (cons _ xs) = parse_roles xs

-- `bool(obj.get("enabled", False))`
unfoldable pub enabled_of : Option Value → Bool
enabled_of none = false
enabled_of (some v) = truthy v

-- `obj.get("roles") or []`, with what follows.
unfoldable pub flag_of : Bool → Option Value → Flag
unfolding parse_roles
flag_of enabled none = record { enabled = enabled; roles = [] }
flag_of enabled (some (arr xs)) = record { enabled = enabled; roles = parse_roles xs }
flag_of enabled (some v) = if truthy v then deny_all else record { enabled = enabled; roles = [] }

unfoldable pub parse_object : Value → Flag
unfolding flag_of enabled_of get_field
parse_object (obj fs) =
    flag_of (enabled_of (get_field (codes "enabled") fs)) (get_field (codes "roles") fs)
parse_object _ = deny_all

-- `any(cr in flag.roles for cr in caller_roles)`; it is false too where either is empty.
unfoldable pub shares : List Role → List Role → Bool
shares [] rs = false
shares (c ∷ cs) rs = elem c rs || shares cs rs

-- The test of `allowed`, on the flag that the store has.
unfoldable pub permits : Option Flag → List Role → Bool
unfolding shares
permits none caller = false
permits (some f) caller = f.enabled && shares caller f.roles

module _ (loads_bytes : Bytes → Option Value) (loads_text : Text → Option Value) where
  unfoldable pub parse_loaded : Option Value → Flag
  unfolding parse_object
  parse_loaded none = deny_all
  parse_loaded (some v) = parse_object v

  -- `parse_from_json`. What `json.loads` raises for a value that is no text is caught.
  unfoldable pub parse_from_json : Column → Flag
  unfolding parse_loaded
  parse_from_json (raw b) = parse_loaded (loads_bytes b)
  parse_from_json (text s) = parse_loaded (loads_text s)
  parse_from_json (value v) = parse_object v

  -- `_load_from_pool`, with its `key LIKE 'flag.%'`.
  unfoldable pub load_from_pool : Dict Text Column → Dict Text Flag
  unfolding parse_from_json
  load_from_pool [] = []
  load_from_pool ((k, c) ∷ rows) =
      let rest = load_from_pool rows in
      if starts_with (codes "flag.") k then (k, parse_from_json c) ∷ rest else rest

-- `PostgresStore`, at a time that the clock shows; a refresh that was never done is at time 0.
pub record PostgresStore : Type 0 where
  pub ttl : ℕ
  pub flags : Dict Text Flag
  pub last_refreshed : ℕ

unfoldable pub stale : ℕ → PostgresStore → Bool
stale now s = eqb s.last_refreshed 0 || ltb s.ttl (now - s.last_refreshed)

-- `get`: the flag of the snapshot, and whether a refresh was started.
unfoldable pub get : ℕ → Text → PostgresStore → Option Flag × Bool
unfolding stale
get now k s = (lookup k s.flags, stale now s)

-- `refresh`: where the query raises, the snapshot stays.
unfoldable pub refresh : ℕ → Option (Dict Text Flag) → PostgresStore → PostgresStore
refresh now none s = s
refresh now (some fresh) s = record s { flags = fresh; last_refreshed = now }

unfoldable pub invalidate : Text → PostgresStore → PostgresStore
invalidate k s = record s { flags = erase k s.flags }

-- `allowed`
unfoldable pub allowed : ℕ → Text → List Role → PostgresStore → Bool
unfolding get permits
allowed now k caller s = permits (get now k s).0 caller

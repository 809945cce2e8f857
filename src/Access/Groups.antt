-- ===== src/Access/Groups.antt =====
-- omkit/auth/roles.py: the roles that groups grant.
use omkit_python.Prelude.{
  ◌≡◌, refl, inl, inr, Bool, false, ◌||◌, some, List, [], ◌∷◌, ◌++◌, arith, elem, Bool-cases,
}
use omkit_python.Prelude.Text.{Text, text_eq}
use omkit_python.Access.{
  Role, role_eq, same_role_iff, group_roles, add_roles, add_groups, roles_from_groups,
}

-- Whether one of the groups grants the role.
abbrev pub granted : Role → List Text → Bool
granted r [] = false
granted r (g ∷ gs) = elem r (group_roles g) || granted r gs

abbrev pub NoRepeats : List Role → Type 0
NoRepeats [] = Unit
NoRepeats (r ∷ rs) = (elem r rs ≡ false) × NoRepeats rs

elem-append : (r : Role) (xs ys : List Role) → elem r (xs ++ ys) ≡ (elem r xs || elem r ys)
elem-append r [] ys = refl
elem-append r (x ∷ xs) ys = ground (arith, elem-append r xs ys)

last-NoRepeats :
    (r : Role) (xs : List Role) → elem r xs ≡ false → NoRepeats xs → NoRepeats (xs ++ (r ∷ []))
last-NoRepeats r [] h u = (refl, tt)
last-NoRepeats r (x ∷ xs) h u =
    ground
      (arith, elem-append x xs (r ∷ []), same_role_iff x r, same_role_iff r x, last-NoRepeats r xs)

add_roles-elem :
    (r : Role) (out rs : List Role) → elem r (add_roles out rs) ≡ (elem r out || elem r rs)
unfolding add_roles
add_roles-elem r out [] = ground arith
add_roles-elem r out (q ∷ rs) = elim (Bool-cases (elem q out)) [
  | inl seen ↦
      rw (seen, add_roles) (ground (arith, add_roles-elem r out rs, same_role_iff q r, seen))
  | inr fresh ↦
      rw (fresh, add_roles)
        (ground (arith, add_roles-elem r (out ++ (q ∷ [])) rs, elem-append r out (q ∷ [])))
]

add_roles-NoRepeats : (out rs : List Role) → NoRepeats out → NoRepeats (add_roles out rs)
unfolding add_roles
add_roles-NoRepeats out [] u = u
add_roles-NoRepeats out (q ∷ rs) u = elim (Bool-cases (elem q out)) [
  | inl seen ↦ rw (seen, add_roles) (add_roles-NoRepeats out rs u)
  | inr fresh ↦
      rw (fresh, add_roles)
        (add_roles-NoRepeats (out ++ (q ∷ [])) rs (last-NoRepeats q out fresh u))
]

add_groups-exact :
    (r : Role) (out : List Role) (gs : List Text)
    → NoRepeats out
    → (elem r (add_groups out gs) ≡ (elem r out || granted r gs)) × NoRepeats (add_groups out gs)
unfolding add_groups
add_groups-exact r out [] u = ground arith
add_groups-exact r out (g ∷ gs) u =
    let rest =
      add_groups-exact r (add_roles out (group_roles g)) gs
        (add_roles-NoRepeats out (group_roles g) u) in
    ground (arith, rest, add_roles-elem r out (group_roles g))

-- A role is in the list that `roles_from_groups` returns exactly if one of the groups grants it, and
-- no role is in it twice.
pub roles_from_groups_exact :
    (r : Role) (gs : List Text)
    → (elem r (roles_from_groups (some gs)) ≡ granted r gs)
      × NoRepeats (roles_from_groups (some gs))
unfolding roles_from_groups
roles_from_groups_exact r gs = add_groups-exact r [] gs tt

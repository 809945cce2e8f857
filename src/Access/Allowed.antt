-- ===== src/Access/Allowed.antt =====
-- omkit/featureflags: who is allowed what, from the JSON of the flags' rows on.
use omkit_python.Prelude.{Bool, false, ◌||◌, ◌&&◌, Option, none, some, List, [], ◌∷◌, ◌==◌}
use omkit_python.Prelude.Text.{Text, Bytes, codes, text_eq}
use omkit_python.Prelude.Dict.{Dict}
use omkit_python.Json.{Value, str, arr, obj, Items, nil, cons, Column, raw, text, value, get_field}
use omkit_python.Access.{Role, role_eq, role_value, enabled_of}

-- Whether an array has the text.
abbrev pub lists : Text → Items → Bool
lists s nil = false
lists s (cons (str t) xs) = t == s || lists s xs
lists s (cons _ xs) = lists s xs

-- Whether a value is an array that names one of the roles.
abbrev pub names_one : List Role → Option Value → Bool
names_one [] v = false
names_one (c ∷ cs) (some (arr xs)) = lists (role_value c) xs || names_one cs (some (arr xs))
names_one (c ∷ cs) _ = false

-- Whether a flag's value opens it to the roles.
abbrev pub opens : List Role → Option Value → Bool
opens caller (some (obj fs)) =
    enabled_of (get_field (codes "enabled") fs) && names_one caller (get_field (codes "roles") fs)
opens caller _ = false

module _ (loads_bytes : Bytes → Option Value) (loads_text : Text → Option Value) where
  -- What the JSON of a column is, if it is JSON.
  abbrev pub json_of : Column → Option Value
  json_of (raw b) = loads_bytes b
  json_of (text s) = loads_text s
  json_of (value v) = some v

  -- Whether the row of a flag opens it to the roles.
  abbrev pub row_opens : List Role → Option Column → Bool
  row_opens cs none = false
  row_opens cs (some c) = opens cs (json_of c)

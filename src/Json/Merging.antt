-- ===== src/Json/Merging.antt =====
-- Objects whose keys are told apart: what reading them one by one builds.
use omkit_python.Prelude.{◌≡◌, refl, ap, none, arith}
use omkit_python.Prelude.Text.{Text, text_eq, text_beq_iff}
use omkit_python.Json.{Value, Fields, end, field, get_field}
use omkit_python.Json.Reader.{set_field}

-- The value of a key that is new goes to the end.
abbrev pub append_fields : Fields → Fields → Fields
append_fields end gs = gs
append_fields (field k v fs) gs = field k v (append_fields fs gs)

pub set_field-new :
    (k : Text) (v : Value) (fs : Fields)
    → get_field k fs ≡ none
    → set_field k v fs ≡ append_fields fs (field k v end)
unfolding set_field get_field
set_field-new k v end h = refl
set_field-new k v (field j w fs) h = ground (arith, h, set_field-new k v fs)

pub append_fields_assoc :
    (fs gs hs : Fields)
    → append_fields (append_fields fs gs) hs ≡ append_fields fs (append_fields gs hs)
append_fields_assoc end gs hs = refl
append_fields_assoc (field k v fs) gs hs = ap (field k v) (append_fields_assoc fs gs hs)

pub append_fields-end : (fs : Fields) → append_fields fs end ≡ fs
append_fields-end end = refl
append_fields-end (field k v fs) = ap (field k v) (append_fields-end fs)

append_fields-get :
    (k : Text) (fs gs : Fields)
    → get_field k fs ≡ none
    → get_field k (append_fields fs gs) ≡ get_field k gs
unfolding get_field
append_fields-get k end gs h = refl
append_fields-get k (field j v fs) gs h = ground (arith, h, append_fields-get k fs gs)

-- The keys of the second object are not in the first.
abbrev pub Apart : Fields → Fields → Type 0
Apart acc end = Unit
Apart acc (field k v fs) = (get_field k acc ≡ none) × Apart acc fs

pub Apart-append :
    (acc fs : Fields) (k : Text) (v : Value)
    → get_field k fs ≡ none
    → Apart acc fs
    → Apart (append_fields acc (field k v end)) fs
unfolding get_field
Apart-append acc end k v h a = tt
Apart-append acc (field j w fs) k v h a = (
  ground
      (arith, a.0, h, text_beq_iff j k, text_beq_iff k j, append_fields-get j acc (field k v end)),
  Apart-append acc fs k v (ground (arith, h)) a.1,
)

pub Apart-end : (fs : Fields) → Apart end fs
unfolding get_field
Apart-end end = tt
Apart-end (field k v fs) = (refl, Apart-end fs)

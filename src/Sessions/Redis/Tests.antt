-- ===== src/Sessions/Redis/Tests.antt =====
-- Witnesses and tests for the session store on Redis.
use omkit_python.Prelude.{◌+◌, ◌*◌, ◌≤◌, ◌<◌, ◌≡◌, refl, ◌⊎◌, Option, none, some, [], ◌∷◌}
use omkit_python.Prelude.Text.{Text, codes, text_eq, text_beq, starts_with}
use omkit_python.Prelude.Dict.{lookup, insert, erase}
use omkit_python.Prelude.Exceptions.{ok, raise}
use omkit_python.Json.{Value, null, obj, str, get_field}
use omkit_python.Sessions.{Session, not_found}
use omkit_python.Sessions.Redis.{
  Iso, Decoded, second, ttl_of, session_object, put, get, delete, list,
}
use omkit_python.Sessions.Redis.Expiry.{ttl_of_bounds, get-put_redis, get-delete_redis}

abbrev iso : Iso
iso = record { isoformat = λ t. t ∷ []; fromisoformat = elim [ str (t ∷ []) ↦ some t | _ ↦ none ] }

abbrev session : Session
session = record {
  token = codes "x";
  tenant_id = codes "a";
  payload = null;
  expires_at = 3500000;
  created_at = 7;
}

abbrev loads : Text → Option Value
loads s = some (obj (session_object (λ t. none) iso (codes "omur:") session))

abbrev decoded : Decoded
decoded = record {
  token = str (codes "x");
  tenant_id = str (codes "a");
  payload = null;
  expires_at = 3500000;
  created_at = 7;
}

ttl_of-three_seconds :
    (7 + second ≤ 3500000)
      × (7 + ttl_of 7 3500000 * second ≤ 3500000)
      × (3500000 < 7 + ttl_of 7 3500000 * second + second)
    ⊎ (3500000 < 7 + second) × (ttl_of 7 3500000 ≡ 1)
ttl_of-three_seconds = ttl_of_bounds 7 3500000

runs : Unit {0}
unfolding lookup insert erase text_beq starts_with get_field put get delete list
runs = tt

-- Another tenant gets the session, and takes it away.
get-put_redis_example :
    get loads iso
      (codes "omur:")
      3000000
      (codes "x")
      (some (codes "b"))
      (put loads iso (codes "omur:") 7 session [])
    ≡ ok decoded
unfolding runs
get-put_redis_example =
    get-put_redis loads iso (codes "omur:") 7 3000000 session (some (codes "b")) [] refl refl refl

get-deleted_elsewhere :
    get loads iso (codes "omur:") 8 (codes "x") (some (codes "a")) (
      delete loads iso
        (codes "omur:")
        (codes "x")
        (some (codes "b"))
        (put loads iso (codes "omur:") 7 session []))
    ≡ raise not_found
get-deleted_elsewhere =
    get-delete_redis loads iso (codes "omur:") 8 (codes "x") (some (codes "b")) (some (codes "a"))
      (put loads iso (codes "omur:") 7 session [])

list-put :
    list loads iso
      (codes "omur:")
      8
      (codes "b")
      (codes "omur:x" ∷ codes "omur:y" ∷ [])
      (put loads iso (codes "omur:") 7 session [])
    ≡ ok []
unfolding runs
list-put = refl

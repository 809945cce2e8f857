-- ===== src/Settings/LiveTests.antt =====
-- Witnesses and tests for the tasks of the settings manager.
use omkit_python.Prelude.{
  ℕ, ◌≡◌, refl, true, false, Option, none, some, List, [], ◌∷◌, ◌++◌, arith, ◌==◌, nat_eq,
}
use omkit_python.Prelude.Text.{Text, Bytes, codes, utf8, text_eq, text_beq}
use omkit_python.Prelude.Dict.{lookup, insert, erase}
use omkit_python.Json.{Value, null, str, obj, field, end, boolean, Column, value, text, get_field}
use omkit_python.Crypto.{wrap_with_key, encrypt_value, decrypt_value}
use omkit_python.Crypto.Sample.{plain_cipher, plain_cipher-IsAead, codecs, nonce, key32, zeros}
use omkit_python.Settings.{
  Setting, Table, empty, load_from_pool, get, select_newer, parse_value, handle_message,
}
use omkit_python.Settings.Polling.{latest_of}
use omkit_python.Settings.Live.{
  Setup, Service, constructed, backend, backend_from_env, launch, start, stop, poll_task,
  get_secret, validate, is_null, is_empty_text, invalid_json, other, message, lost, closed, Attempt,
  unreachable, subscribed, again,
}
use omkit_python.Settings.Restart.{is_set, restart_polls_nothing}
use omkit_python.Settings.Messages.{last_effect, heard}
use omkit_python.Settings.Secrets.{secrets_stay_out, get_secret-encrypt_value}

abbrev decode : Bytes → Option Text
decode b = some b

abbrev loads : Text → Option Value
loads s = none

-- The callbacks keep a record of their calls.
abbrev call : ℕ → Value → List ℕ → List ℕ
call c v w = c ∷ w

abbrev setting : Text → ℕ → Setting
setting s t = record { value_json = value (str s); is_secret = false; updated_at = t }

abbrev token : Text
token = codes "v1" ++ (nonce ++ (zeros ++ codes "abcd"))

abbrev secret : Setting
secret = record { value_json = text token; is_secret = true; updated_at = 3 }

abbrev table : Table
table = (codes "a", setting (codes "x") 5) ∷ (codes "s", secret) ∷ []

abbrev written : Table
written = insert (codes "a") (setting (codes "y") 9) table

abbrev setup : Setup
setup = record { has_pool = true; valkey_url = []; env = none }

abbrev service : Service
service = (start decode loads setup (some table) none (constructed empty)).0

runs : Unit {0}
unfolding lookup insert erase text_beq load_from_pool handle_message get select_newer parse_value
    get_field latest_of start backend backend_from_env launch stop poll_task
runs = tt

started : (service.manager.last_seen ≡ some 5) × (service.polling ≡ true)
unfolding runs
started = (refl, refl)

abbrev restarted : Service
restarted = (start decode loads setup (some written) none (stop service)).0

restart_polls_nothing-tested :
    poll_task decode loads call
      (is_set restarted.stop_event)
      ((false, some table) ∷ [])
      restarted.manager
      []
    ≡ ((restarted.manager, []), true)
unfolding runs
restart_polls_nothing-tested =
    restart_polls_nothing decode loads call setup (some written) none service false refl
      ((false, some table) ∷ []) []

secrets_stay_out_example :
    get
      (codes "s")
      null
      (poll_task decode loads call false ((false, some written) ∷ []) service.manager []).0.0
    ≡ null
unfolding runs
secrets_stay_out_example =
    secrets_stay_out decode loads call setup (some table) none (codes "s") refl
      (λ e. absurd (ground arith), (λ e. refl, tt)) false ((false, some written) ∷ []) null []
      ((λ e. absurd (ground arith), (λ e. refl, tt)), tt)

repr : Column → Text
repr c = []

get_secret-encrypt_value_example :
    get_secret (decrypt_value codecs plain_cipher) repr (codes "s") key32 table
    ≡ some (codes "abcd")
unfolding runs encrypt_value wrap_with_key utf8
get_secret-encrypt_value_example =
    get_secret-encrypt_value plain_cipher plain_cipher-IsAead codecs (λ b. refl) repr nonce
      (codes "abcd") key32 key32 refl refl refl refl (codes "s") token table secret refl refl refl
      refl

-- The first subscription ends with a text; the second takes the key out.
abbrev attempts : List Attempt
attempts =
    subscribed
      (other
        ∷ message
            (some (obj (field (codes "key") (str (codes "a")) (field (codes "value") null end))))
        ∷ message (some (str []))
        ∷ [])
      closed
    ∷ unreachable
    ∷ subscribed
        (message (
            some (
              obj (
                field (codes "key") (str (codes "a"))
                  (field (codes "changed") (boolean true) end))))
          ∷ [])
        lost
    ∷ []

taken_out : last_effect (codes "a") (heard attempts) ≡ some none
unfolding runs last_effect heard again
taken_out = refl

-- A blank is white space.
warnings :
    validate
      (λ c. c == 32)
      loads
      ((codes "a", null)
        ∷ (codes "b", str (codes " "))
        ∷ (codes "my_token", str (codes " "))
        ∷ (codes "d", str (codes " {x} "))
        ∷ (codes "e", str (codes "x"))
        ∷ [])
    ≡ (codes "a", is_null) ∷ (codes "b", is_empty_text) ∷ (codes "d", invalid_json) ∷ []
unfolding runs validate
warnings = refl

-- Without a pool and an address, no task is started.
idle :
    let u : Setup = record { has_pool = false; valkey_url = []; env = none } in
    let s = (start decode loads u none none (constructed empty)).0 in
    (s.polling ≡ false) × (s.subscribing ≡ false)
unfolding runs
idle = (refl, refl)

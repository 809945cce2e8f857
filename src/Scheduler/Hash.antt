-- ===== src/Scheduler/Hash.antt =====
-- omkit/scheduler/scheduler.py: what `_config_hash` feeds to SHA-256.
use omkit_python.Prelude.{◌≡◌, arith}
use omkit_python.Prelude.Text.{Text, utf8}
use omkit_python.Prelude.Separators.{Avoids, utf8-Avoids, split_at}
use omkit_python.Json.{Fields, obj, dumps}
use omkit_python.Scheduler.{hash_input, canonical}

-- What is hashed tells the cron spec and the config apart: two inputs of SHA-256 agree only if both
-- the encoded cron specs and the canonical JSON of the configs agree, for cron specs without NUL.
pub hash_input_separates :
    (c c' : Text) (f f' : Fields)
    → Avoids 0 c
    → Avoids 0 c'
    → hash_input c f ≡ hash_input c' f'
    → (utf8 c ≡ utf8 c') × (utf8 (dumps canonical (obj f)) ≡ utf8 (dumps canonical (obj f')))
unfolding hash_input
hash_input_separates c c' f f' h h' e =
    split_at 0 (utf8 c) (utf8 c') (utf8 (dumps canonical (obj f))) (utf8 (dumps canonical (obj f')))
      (utf8-Avoids 0 c (omega arith) h) (utf8-Avoids 0 c' (omega arith) h') e

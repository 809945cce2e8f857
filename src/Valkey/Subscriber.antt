-- ===== src/Valkey/Subscriber.antt =====
-- omkit/valkeysub.py: `Subscriber.messages`, as the actions that the generator takes. The client of
-- Redis is what its calls bring: an attempt is a subscription, the replies that it gets, and how it
-- ends. The generator may also be closed by its consumer, where it has yielded.
use omkit_python.Prelude.{Option, none, some, List, [], ◌∷◌, ◌++◌}
use omkit_python.Prelude.Text.{Text, Bytes, utf8}

-- The field "data" of a message: a text, bytes or a count.
pub data Data : Type 0 where
  text : Text → Data
  bytes : Bytes → Data
  count : Data

-- What `get_message` returns: nothing, or a message with or without data.
pub data Reply : Type 0 where
  nothing : Reply
  message : Option Data → Reply

-- How a subscription ends: an exception, the cancellation of the task, or the generator is closed.
pub data How : Type 0 where
  raised cancelled dropped : How

pub data Action : Type 0 where
  opens unsubscribes closes sleeps : Action
  yields : Bytes → Action

-- The payload that a reply makes the generator yield.
unfoldable pub payload : Reply → Option Bytes
payload (message (some (text s))) = some (utf8 s)
payload (message (some (bytes b))) = some b
payload _ = none

-- The inner loop.
unfoldable pub receive : List Reply → List Action
unfolding payload
receive [] = []
receive (r ∷ rs) = elim (payload r) [ none ↦ receive rs | some b ↦ yields b ∷ receive rs ]

-- The handlers, whose own exceptions are dropped.
unfoldable pub leave : How → List Action
leave raised = closes ∷ sleeps ∷ []
leave cancelled = unsubscribes ∷ closes ∷ []
leave dropped = []

-- The outer loop: only an exception leads to the next attempt.
unfoldable pub messages : List (List Reply × How) → List Action
unfolding receive leave
messages [] = []
messages ((rs, raised) ∷ attempts) = opens ∷ receive rs ++ (leave raised ++ messages attempts)
messages ((rs, how) ∷ attempts) = opens ∷ receive rs ++ leave how

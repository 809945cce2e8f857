-- ===== src/Valkey/SubscriberTests.antt =====
-- Witnesses and tests for the subscriber.
use omkit_python.Prelude.{◌≡◌, refl, false, some, none, List, [], ◌∷◌}
use omkit_python.Prelude.Text.{codes, utf8}
use omkit_python.Valkey.Subscriber.{
  text, bytes, count, Reply, nothing, message, How, raised, cancelled, dropped, opens, unsubscribes,
  closes, sleeps, yields, payload, receive, leave, messages,
}
use omkit_python.Valkey.Reconnects.{follow, arrived, yielded, ends_open, messages_lem}

-- A text, bytes and a count, a lost connection, and a cancellation.
abbrev attempts : List (List Reply × How)
attempts =
    (message (some (text (codes "a"))) ∷ nothing ∷ message (some count) ∷ [], raised)
    ∷ ([], raised)
    ∷ (message (some (bytes (200 ∷ []))) ∷ message none ∷ [], cancelled)
    ∷ (message (some (bytes [])) ∷ [], dropped)
    ∷ []

messages_lem_example :
    (yielded (messages attempts) ≡ arrived attempts)
    × (follow false (messages attempts) ≡ some (ends_open attempts))
messages_lem_example = messages_lem attempts

actions :
    messages attempts
    ≡ opens
      ∷ yields (codes "a")
      ∷ closes
      ∷ sleeps
      ∷ opens
      ∷ closes
      ∷ sleeps
      ∷ opens
      ∷ yields (200 ∷ [])
      ∷ unsubscribes
      ∷ closes
      ∷ []
unfolding messages receive payload leave utf8
actions = refl

-- ===== src/Valkey/Reconnects.antt =====
-- omkit/valkeysub.py: what the generator yields, and that it has one subscription at a time.
use omkit_python.Prelude.{
  ◌≡◌, refl, Bool, true, false, Option, none, some, List, [], ◌∷◌, ◌++◌, arith, append-nil,
}
use omkit_python.Prelude.Text.{Bytes}
use omkit_python.Valkey.Subscriber.{
  Reply, How, raised, cancelled, dropped, Action, opens, unsubscribes, closes, sleeps, yields,
  payload, receive, leave, messages,
}

-- The use of one connection after the other: from whether one is open, whether one is in the end,
-- if only a closed one is opened, and what is done with one is done while it is open.
unfoldable pub follow : Bool → List Action → Option Bool
follow has_one [] = some has_one
follow false (opens ∷ as_) = follow true as_
follow true (unsubscribes ∷ as_) = follow true as_
follow true (yields b ∷ as_) = follow true as_
follow true (closes ∷ as_) = follow false as_
follow false (sleeps ∷ as_) = follow false as_
follow has_one (a ∷ as_) = none

-- The payloads of the attempts until one ends by other than an exception.
unfoldable pub payloads : List Reply → List Bytes
unfolding payload
payloads [] = []
payloads (r ∷ rs) = elim (payload r) [ none ↦ payloads rs | some b ↦ b ∷ payloads rs ]

unfoldable pub arrived : List (List Reply × How) → List Bytes
unfolding payloads
arrived [] = []
arrived ((rs, raised) ∷ attempts) = payloads rs ++ arrived attempts
arrived ((rs, how) ∷ attempts) = payloads rs

unfoldable pub yielded : List Action → List Bytes
yielded [] = []
yielded (yields b ∷ as_) = b ∷ yielded as_
yielded (a ∷ as_) = yielded as_

-- Whether the generator was closed while it was subscribed.
unfoldable pub ends_open : List (List Reply × How) → Bool
ends_open [] = false
ends_open ((rs, raised) ∷ attempts) = ends_open attempts
ends_open ((rs, cancelled) ∷ attempts) = false
ends_open ((rs, dropped) ∷ attempts) = true

receive-follow :
    (rs : List Reply) (as_ : List Action)
    → (follow true (receive rs ++ as_) ≡ follow true as_)
      × (yielded (receive rs ++ as_) ≡ payloads rs ++ yielded as_)
unfolding receive follow yielded payloads
receive-follow [] as_ = (refl, refl)
receive-follow (r ∷ rs) as_ = ground (arith, receive-follow rs as_)

-- The generator yields the payloads of all subscriptions in their order, texts as their UTF-8, and
-- has one connection at most: it opens one when it has none, yields while it has one, and has closed
-- it when it sleeps or is cancelled. Only where its consumer closes it is one left open.
pub messages_lem :
    (attempts : List (List Reply × How))
    → (yielded (messages attempts) ≡ arrived attempts)
      × (follow false (messages attempts) ≡ some (ends_open attempts))
unfolding messages leave follow yielded arrived ends_open
messages_lem [] = (refl, refl)
messages_lem ((rs, raised) ∷ attempts) =
    let (done, rest) = messages_lem attempts in
    let here = receive-follow rs (closes ∷ sleeps ∷ messages attempts) in
    ground (arith, done, rest, here)
messages_lem ((rs, cancelled) ∷ attempts) =
    ground (arith, receive-follow rs (unsubscribes ∷ closes ∷ []), append-nil (payloads rs))
messages_lem ((rs, dropped) ∷ attempts) =
    ground (arith, receive-follow rs [], append-nil (payloads rs))

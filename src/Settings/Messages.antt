-- ===== src/Settings/Messages.antt =====
-- omkit/settings.py: what the messages of the channel do to the cache, over all subscriptions.
use omkit_python.Prelude.{
  ℕ, ◌≡◌, Bool, true, false, not, ◌||◌, Option, none, some, List, [], ◌∷◌, ◌++◌, if◌then◌else◌,
  ◌==◌,
}
use omkit_python.Prelude.Text.{Text, Bytes, codes, text_eq}
use omkit_python.Prelude.Dict.{lookup}
use omkit_python.Json.{Value, Fields, str, obj, get_field, truthy}
use omkit_python.Settings.{Manager, handle_message}
use omkit_python.Settings.Live.{Event, other, message, Attempt, unreachable, subscribed, again}

-- `payload.get("changed")`
abbrev is_changed : Fields → Bool
is_changed fs = elim (get_field (codes "changed") fs) [ none ↦ false | some v ↦ truthy v ]

-- What a message that names a key does to the entry of that key: `none` for nothing.
abbrev effect_on : Fields → Option (Option Value)
effect_on fs = elim (get_field (codes "value") fs) [
  | some v ↦ some (some v)
  | none ↦ if is_changed fs then some none else none
]

-- What a message does to the entry of a key.
unfoldable pub effect : Text → Option Value → Option (Option Value)
unfolding get_field
effect k (some (obj fs)) = elim (get_field (codes "key") fs) [
  | some (str (c ∷ j)) ↦ if (c ∷ j) == k then effect_on fs else none
  | _ ↦ none
]
effect k _ = none

-- The last of the messages that does something decides.
unfoldable pub last_effect : Text → List (Option Value) → Option (Option Value)
unfolding effect
last_effect k [] = none
last_effect k (p ∷ ps) = elim (last_effect k ps) [ none ↦ effect k p | some v ↦ some v ]

abbrev pub entry_after : Option (Option Value) → Option Value → Option Value
entry_after none old = old
entry_after (some new) old = new

-- Whether a message ends its subscription: its payload is JSON, and no object.
abbrev pub breaks : Option Value → Bool
breaks (some (obj fs)) = false
breaks none = false
breaks _ = true

-- The payloads that a subscription gets to, and whether the last one broke it.
unfoldable pub heard_by : List Event → List (Option Value) × Bool
heard_by [] = ([], false)
heard_by (other ∷ ms) = heard_by ms
heard_by (message p ∷ ms) =
    let (ps, broken) = heard_by ms in if breaks p then (p ∷ [], true) else (p ∷ ps, broken)

-- The payloads that all subscriptions get to.
unfoldable pub heard : List Attempt → List (Option Value)
unfolding heard_by
heard [] = []
heard (unreachable ∷ rest) = heard rest
heard (subscribed ms e ∷ rest) =
    let (ps, broken) = heard_by ms in
    let later = heard rest in ps ++ (if broken || again e then later else [])

module _ (decode : Bytes → Option Text) (loads : Text → Option Value) where
  module _ {W : Type 0} (call : ℕ → Value → W → W) where
    abbrev Handled : Text → Option Value → Manager → W → Type 0
    Handled k p m w =
        let (returned, (m', w')) = handle_message decode loads call p m w in
        (lookup k m'.cache ≡ entry_after (effect k p) (lookup k m.cache))
        × (returned ≡ not (breaks p))

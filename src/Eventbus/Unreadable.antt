-- ===== src/Eventbus/Unreadable.antt =====
-- omkit/eventbus.py: what ends the loop of `RedisEventBus.subscribe`.
use omkit_python.Prelude.{
  ℕ, ◌≡◌, refl, inl, inr, Bool, true, ◌&&◌, Option, none, some, List, [], ◌∷◌, arith, Option-cases,
}
use omkit_python.Prelude.Text.{Text, Bytes}
use omkit_python.Prelude.Dict.{is_some}
use omkit_python.Json.{Value}
use omkit_python.Eventbus.{Event}
use omkit_python.Valkey.{Item}
use omkit_python.Eventbus.Redis.{
  Client, RedisBus, stream, event_of, handle, deliver, deliver_all, round,
}

module _ {W : Type 0} (c : Client W) (b : RedisBus) (decode : Bytes → Option Text)
    (loads : Text → Option Value) (now : ℕ) (handler : Event → W → Bool × W) where
  -- Whether every entry can be made an event.
  abbrev pub all_built : Text → List Item → Bool
  all_built topic [] = true
  all_built topic (x ∷ xs) =
      is_some (event_of c b decode loads now topic x.raw_fields) && all_built topic xs

  abbrev pub response_built : Text → List (Text × List Item) → Bool
  response_built topic [] = true
  response_built topic ((s, xs) ∷ rs) = all_built topic xs && response_built topic rs

  deliver-built :
      (topic : Text) (xs : List Item) (w : W)
      → (deliver c b decode loads now handler topic xs w).0 ≡ all_built topic xs
  unfolding deliver
  deliver-built topic [] w = refl
  deliver-built topic (x ∷ xs) w =
      elim (Option-cases (event_of c b decode loads now topic x.raw_fields)) [
        | inl e ↦ rw (e, deliver) refl
        | inr (ev, e) ↦
            rw (e, deliver)
              (deliver-built topic xs (handle c b decode loads now handler topic x.msg_id ev w))
      ]

  deliver_all-built :
      (topic : Text) (rs : List (Text × List Item)) (w : W)
      → (deliver_all c b decode loads now handler topic rs w).0 ≡ response_built topic rs
  unfolding deliver_all
  deliver_all-built topic [] w = refl
  deliver_all-built topic ((s, xs) ∷ rs) w = ground (
    arith,
    deliver-built topic xs w,
    deliver_all-built topic rs (deliver c b decode loads now handler topic xs w).1,
  )

  -- A round of the loop of `subscribe` raises exactly if the read returned and one of its entries
  -- cannot be made an event; a read, a handler or an acknowledgement that raises ends no round.
  pub round-built :
      (topic : Text) (w : W)
      → (round c b decode loads now handler topic w).0
        ≡ (elim (c.xreadgroup b.group b.consumer (stream b topic) w).0 [
          | none ↦ true
          | some rs ↦ response_built topic rs
        ])
  unfolding round
  round-built topic w = elim (Option-cases (c.xreadgroup b.group b.consumer (stream b topic) w).0) [
    | inl e ↦ rw (e, round) refl
    | inr (rs, e) ↦
        rw (e, round)
          (deliver_all-built topic rs (c.xreadgroup b.group b.consumer (stream b topic) w).1)
  ]

-- ===== src/Eventbus/AtMostOnce.antt =====
-- omkit/eventbus.py: how often `RedisEventBus` hands over an entry.
use omkit_python.Prelude.{
  ℕ, ◌+◌, ◌≤◌, ◌≡◌, refl, ◌∙◌, inl, inr, Bool, Option, none, some, List, [], ◌∷◌, arith, length,
  All, if◌then◌else◌, Bool-cases, Option-cases,
}
use omkit_python.Prelude.Text.{Text, Bytes}
use omkit_python.Json.{Value}
use omkit_python.Eventbus.{Event}
use omkit_python.Valkey.{Raw, Item}
use omkit_python.Eventbus.Redis.{
  Client, RedisBus, stream, event_of, handle, deliver, deliver_all, round, rounds, subscribe,
}

-- How many entries a response has.
abbrev pub entries : List (Text × List Item) → ℕ
entries [] = 0
entries ((s, xs) ∷ rs) = length xs + entries rs

module _ {W : Type 0} (c : Client W) (b : RedisBus) (decode : Bytes → Option Text)
    (loads : Text → Option Value) (now : ℕ) (handler : Event → W → Bool × W) where
  -- What is counted: the entries that reads handed out, the calls of the handler, how many of them
  -- returned, and the entries that were acknowledged. Each operation counts for itself alone.
  pub record Counts : Type 0 where
    pub given : W → ℕ
    pub calls : W → ℕ
    pub returned : W → ℕ
    pub acked : W → ℕ
    pub create_given : (s g : Text) (w : W) → given (c.xgroup_create s g w).1 ≡ given w
    pub create_calls : (s g : Text) (w : W) → calls (c.xgroup_create s g w).1 ≡ calls w
    pub create_returned : (s g : Text) (w : W) → returned (c.xgroup_create s g w).1 ≡ returned w
    pub create_acked : (s g : Text) (w : W) → acked (c.xgroup_create s g w).1 ≡ acked w
    pub read_given :
        (g k s : Text) (w : W)
        → given w + (elim (c.xreadgroup g k s w).0 [ none ↦ 0 | some rs ↦ entries rs ])
          ≤ given (c.xreadgroup g k s w).1
    pub read_calls : (g k s : Text) (w : W) → calls (c.xreadgroup g k s w).1 ≡ calls w
    pub read_returned : (g k s : Text) (w : W) → returned (c.xreadgroup g k s w).1 ≡ returned w
    pub read_acked : (g k s : Text) (w : W) → acked (c.xreadgroup g k s w).1 ≡ acked w
    pub ack_given : (s g : Text) (i : Raw) (w : W) → given (c.xack s g i w).1 ≡ given w
    pub ack_calls : (s g : Text) (i : Raw) (w : W) → calls (c.xack s g i w).1 ≡ calls w
    pub ack_returned : (s g : Text) (i : Raw) (w : W) → returned (c.xack s g i w).1 ≡ returned w
    pub ack_acked : (s g : Text) (i : Raw) (w : W) → acked (c.xack s g i w).1 ≤ acked w + 1
    pub handler_given : (e : Event) (w : W) → given (handler e w).1 ≡ given w
    pub handler_calls : (e : Event) (w : W) → calls (handler e w).1 ≡ calls w + 1
    pub handler_returned :
        (e : Event) (w : W)
        → returned (handler e w).1 ≡ returned w + (if (handler e w).0 then 1 else 0)
    pub handler_acked : (e : Event) (w : W) → acked (handler e w).1 ≡ acked w

  module _ (k : Counts) where
    -- Between two worlds, calls are at most as many as entries handed out, and acknowledgements as
    -- calls that returned.
    pub record Bounded (w w' : W) : Type 0 where
      pub once : k.calls w' + k.given w ≤ k.calls w + k.given w'
      pub earned : k.acked w' + k.returned w ≤ k.acked w + k.returned w'

    -- The same while `n` entries that were handed out are still to be delivered.
    record Owed (n : ℕ) (w w' : W) : Type 0 where
      once : k.calls w' ≤ k.calls w + n
      given : k.given w' ≡ k.given w
      earned : k.acked w' + k.returned w ≤ k.acked w + k.returned w'

    handle-Owed :
        (topic : Text) (i : Raw) (e : Event) (w : W)
        → Owed 1 w (handle c b decode loads now handler topic i e w)
    unfolding handle
    handle-Owed topic i e w = elim (Bool-cases (handler e w).0) [
      | inl h ↦
          let w' = (handler e w).1 in
          let s = stream b topic in
          rw (h, handle)
            (record {
              once = omega (arith, k.ack_calls s b.group i w', k.handler_calls e w);
              given = k.ack_given s b.group i w' ∙ k.handler_given e w;
              earned = ground (
                arith,
                h,
                k.ack_acked s b.group i w',
                k.ack_returned s b.group i w',
                k.handler_acked e w,
                k.handler_returned e w,
              );
            })
      | inr h ↦
          rw (h, handle)
            (record {
              once = omega (arith, k.handler_calls e w);
              given = k.handler_given e w;
              earned = ground (arith, h, k.handler_acked e w, k.handler_returned e w);
            })
    ]

    deliver-Owed :
        (topic : Text) (xs : List Item) (w : W)
        → Owed (length xs) w (deliver c b decode loads now handler topic xs w).1
    unfolding deliver
    deliver-Owed topic [] w = record { once = omega arith; given = refl; earned = omega arith }
    deliver-Owed topic (x ∷ xs) w =
        elim (Option-cases (event_of c b decode loads now topic x.raw_fields)) [
          | inl e ↦
              rw (e, deliver) (record { once = omega arith; given = refl; earned = omega arith })
          | inr (ev, e) ↦
              let w' = handle c b decode loads now handler topic x.msg_id ev w in
              let first = handle-Owed topic x.msg_id ev w in
              let rest = deliver-Owed topic xs w' in
              rw (e, deliver)
                (record {
                  once = omega (arith, first.once, rest.once);
                  given = rest.given ∙ first.given;
                  earned = omega (arith, first.earned, rest.earned);
                })
        ]

    deliver_all-Owed :
        (topic : Text) (rs : List (Text × List Item)) (w : W)
        → Owed (entries rs) w (deliver_all c b decode loads now handler topic rs w).1
    unfolding deliver_all
    deliver_all-Owed topic [] w = record { once = omega arith; given = refl; earned = omega arith }
    deliver_all-Owed topic ((s, xs) ∷ rs) w =
        let w' = (deliver c b decode loads now handler topic xs w).1 in
        let first = deliver-Owed topic xs w in
        let rest = deliver_all-Owed topic rs w' in
        elim (Bool-cases (deliver c b decode loads now handler topic xs w).0) [
          | inl go ↦ rw go (record {
            once = omega (arith, first.once, rest.once);
            given = rest.given ∙ first.given;
            earned = omega (arith, first.earned, rest.earned);
          })
          | inr stop ↦ rw stop (record {
            once = omega (arith, first.once);
            given = first.given;
            earned = first.earned;
          })
        ]

    round-Bounded :
        (topic : Text) (w : W) → Bounded w (round c b decode loads now handler topic w).1
    unfolding round
    round-Bounded topic w =
        let s = stream b topic in
        let w' = (c.xreadgroup b.group b.consumer s w).1 in
        let seen = k.read_given b.group b.consumer s w in
        let called = k.read_calls b.group b.consumer s w in
        let back = k.read_returned b.group b.consumer s w in
        let told = k.read_acked b.group b.consumer s w in
        elim (Option-cases (c.xreadgroup b.group b.consumer s w).0) [
          | inl e ↦
              rw (e, round)
                (record { once = omega (arith, seen, called); earned = omega (arith, back, told) })
          | inr (rs, e) ↦
              let d = deliver_all-Owed topic rs w' in
              let seen' : k.given w + entries rs ≤ k.given w' = ground (arith, seen, e) in
              rw (e, round)
                (record {
                  once = omega (arith, seen', called, d.once, d.given);
                  earned = omega (arith, back, told, d.earned);
                })
        ]

    -- What others do between two rounds changes none of the counts but that of the entries.
    abbrev pub Apart : (W → W) → Type 0
    Apart f =
        (w : W)
        → (k.calls (f w) ≡ k.calls w)
          × (k.given w ≤ k.given (f w))
          × (k.returned (f w) ≡ k.returned w)
          × (k.acked (f w) ≡ k.acked w)

    rounds-Bounded :
        (topic : Text) (waits : List (W → W)) (w : W)
        → All Apart waits
        → Bounded w (rounds c b decode loads now handler topic waits w).1
    unfolding rounds
    rounds-Bounded topic [] w h = record { once = omega arith; earned = omega arith }
    rounds-Bounded topic (f ∷ waits) w h =
        let a = h.0 w in
        let w' = (round c b decode loads now handler topic (f w)).1 in
        let first = round-Bounded topic (f w) in
        let rest = rounds-Bounded topic waits w' h.1 in
        elim (Bool-cases (round c b decode loads now handler topic (f w)).0) [
          | inl go ↦ rw go (record {
            once = omega (arith, a, first.once, rest.once);
            earned = omega (arith, a, first.earned, rest.earned);
          })
          | inr stop ↦ rw stop (record {
            once = omega (arith, a, first.once);
            earned = omega (arith, a, first.earned);
          })
        ]

    -- However its reads, its handler and its acknowledgements end, a subscription calls the handler
    -- at most once for each entry that Redis handed out to it, and acknowledges no more entries than
    -- there were calls that returned. Each operation is taken to count for itself alone, and what
    -- others do between the rounds for neither calls nor acknowledgements.
    pub subscribe-Bounded :
        (topic : Text) (waits : List (W → W)) (w : W)
        → All Apart waits
        → Bounded w (subscribe c b decode loads now handler topic waits w).1
    unfolding subscribe
    subscribe-Bounded topic waits w h =
        let s = stream b topic in
        let w' = (c.xgroup_create s b.group w).1 in
        let rest = rounds-Bounded topic waits w' h in
        record {
          once = omega (arith, k.create_given s b.group w, k.create_calls s b.group w, rest.once);
          earned =
              omega (arith, k.create_returned s b.group w, k.create_acked s b.group w, rest.earned);
        }

-- ===== src/Eventbus/Delivery.antt =====
-- omkit/eventbus.py: what a subscriber of `PostgresEventBus` gets to see.
use omkit_python.Prelude.{
  ℕ, ◌<◌, ◌≡◌, ◌≢◌, refl, ◌∙◌, inl, inr, Bool, true, Option, none, some, List, [], ◌∷◌, arith, elem,
  All, take, Bool-cases, Option-cases, nat_eq, eqb, pair_eq, pair_beq_iff,
}
use mathlib.Core.Path.{subst, subst⁻¹, ap}
use omkit_python.Prelude.Text.{Text, Bytes, text_eq, is_empty}
use omkit_python.Prelude.Dict.{Dict, lookup, lookup-insert}
use omkit_python.Json.{Column, Value}
use omkit_python.Eventbus.{
  Row, Event, Tables, Bus, publish, publish_tenant, fetch, pending, save_offset, deliver, poll_once,
  insert_row,
}
use omkit_python.Eventbus.Order.{
  Ascending, Covered, Logged, last_id_of, insert_row-Ascending, insert_row-Covered, take-Covered,
}
use omkit_python.Eventbus.Batches.{Logs, deliver_keeps, deliver_logs}

module _ (loads_bytes : Bytes → Option Value) (loads_text : Text → Option Value) {W : Type 0}
    (handler : Event → W → Bool × W) (lg : Logs handler) where
  -- What the environment and the subscriber `b` of the topic do, one at a time. A publication takes
  -- an id that no row has and that lies above the offset of the subscriber. Other subscribers write
  -- other offsets.
  module _ (b : Bus) (topic : Text) where
    pub data Step : Tables × W → Tables × W → Type 0 where
      publishes :
          (t : Tables) (w : W) (id now n : ℕ) (to : Text) (payload : Column)
          → lookup (b.consumer, topic) t.offsets ≡ some n
          → n < id
          → All (λ q. q.id ≢ id) t.events
          → Step (t, w) (publish id now to payload t, w)
      publishes_tenant :
          (t : Tables) (w : W) (id now n : ℕ) (tenant to : Text) (payload : Column)
          → lookup (b.consumer, topic) t.offsets ≡ some n
          → n < id
          → All (λ q. q.id ≢ id) t.events
          → Step (t, w) (publish_tenant id now tenant to payload t, w)
      others :
          (t : Tables) (w : W) (o : Dict (Text × Text) ℕ)
          → lookup (b.consumer, topic) o ≡ lookup (b.consumer, topic) t.offsets
          → Step (t, w) (record t { offsets = o }, w)
      polls :
          (t : Tables) (w : W) → Step (t, w) (poll_once loads_bytes loads_text handler b topic t w)

    pub data Reach (st : Tables × W) : Tables × W → Type 0 where
      here : Reach st st
      next : {st' st'' : Tables × W} → Reach st st' → Step st' st'' → Reach st st''

    -- The ids of the table grow, and every event of the topic up to the offset was handled.
    pub record IsDelivered (st : Tables × W) : Type 0 where
      pub offset : ℕ
      pub known : lookup (b.consumer, topic) st.0.offsets ≡ some offset
      pub ascending : Ascending 0 st.0.events
      pub covered : Covered topic offset (lg.log st.1) st.0.events

    Covered-mono :
        (m : ℕ) (old new : List ℕ) (l : List Row)
        → ((i : ℕ) → elem i old ≡ true → elem i new ≡ true)
        → Covered topic m old l
        → Covered topic m new l
    Covered-mono m old new [] h c = tt
    Covered-mono m old new (r ∷ l) h c =
        ((λ e le. h r.id (c.0 e le)), Covered-mono m old new l h c.1)

    abbrev pub batch_end : Tables → W → Option ℕ × W
    batch_end t w = deliver loads_bytes loads_text handler 0 (fetch b topic t) w

    pub poll_raised :
        (t : Tables) (w : W)
        → (batch_end t w).0 ≡ none
        → poll_once loads_bytes loads_text handler b topic t w ≡ (t, (batch_end t w).1)
    unfolding poll_once
    poll_raised t w e = rw (e, poll_once)

    pub poll_returned :
        (t : Tables) (w : W) (m : ℕ)
        → (batch_end t w).0 ≡ some m
        → poll_once loads_bytes loads_text handler b topic t w
          ≡ (save_offset b topic m t, (batch_end t w).1)
    unfolding poll_once
    poll_returned t w m e = rw (e, poll_once)

    save_offset-IsDelivered :
        (t : Tables) (w : W) (m n : ℕ)
        → lookup (b.consumer, topic) t.offsets ≡ some n
        → Ascending 0 t.events
        → Covered topic n (lg.log w) t.events
        → Covered topic m (lg.log w) t.events
        → IsDelivered (save_offset b topic m t, w)
    unfolding save_offset
    save_offset-IsDelivered t w m n k a c c' = elim (Bool-cases (eqb m 0)) [
      | inl nothing ↦
          rw (nothing, save_offset) (record { offset = n; known = k; ascending = a; covered = c })
      | inr some_row ↦
          rw (some_row, save_offset, k)
            (record {
              offset = m;
              known = rw (
                lookup-insert (b.consumer, topic) (b.consumer, topic) m t.offsets,
                (pair_beq_iff (b.consumer, topic) (b.consumer, topic)).1 refl,
              );
              ascending = a;
              covered = c';
            })
    ]

    pub fetch-known :
        (t : Tables) (n : ℕ)
        → lookup (b.consumer, topic) t.offsets ≡ some n
        → fetch b topic t ≡ take b.batch (pending topic n t.events)
    unfolding fetch
    fetch-known t n k = rw (k, fetch)

    pub poll_once-IsDelivered :
        (t : Tables) (w : W)
        → IsDelivered (t, w)
        → IsDelivered (poll_once loads_bytes loads_text handler b topic t w)
    poll_once-IsDelivered t w v =
        let w' = (batch_end t w).1 in
        let kept : Covered topic v.offset (lg.log w') t.events =
          Covered-mono v.offset (lg.log w) (lg.log w') t.events
            (λ i h. deliver_keeps loads_bytes loads_text handler lg i 0 (fetch b topic t) w h)
            v.covered in
        elim (Option-cases (batch_end t w).0) [
          | inl failed ↦ subst⁻¹ IsDelivered (poll_raised t w failed) (record {
            offset = v.offset;
            known = v.known;
            ascending = v.ascending;
            covered = kept;
          })
          | inr (m, e) ↦
              let (at_end, logged) =
                deliver_logs loads_bytes loads_text handler lg 0 (fetch b topic t) w e in
              let rows = fetch-known t v.offset v.known in
              subst⁻¹ IsDelivered (poll_returned t w m e) (
                save_offset-IsDelivered t w' m v.offset v.known v.ascending kept (
                  subst⁻¹ (λ x. Covered topic x (lg.log w') t.events)
                    (at_end ∙ ap (last_id_of 0) rows)
                    (take-Covered topic (lg.log w') v.offset 0 0 b.batch t.events v.ascending
                      (omega arith) kept (subst (Logged (lg.log w')) rows logged))))
        ]

    row-IsDelivered :
        (t : Tables) (w : W) (r : Row) (n : ℕ)
        → lookup (b.consumer, topic) t.offsets ≡ some n
        → n < r.id
        → All (λ q. q.id ≢ r.id) t.events
        → IsDelivered (t, w)
        → IsDelivered (record t { events = insert_row r t.events }, w)
    row-IsDelivered t w r n k lt fresh v =
        let same : n ≡ v.offset = ground (arith, k, v.known) in
        record {
          offset = v.offset;
          known = v.known;
          ascending = insert_row-Ascending 0 r t.events (omega arith) fresh v.ascending;
          covered = insert_row-Covered topic v.offset (lg.log w) r t.events (omega arith) v.covered;
        }

    Step-IsDelivered : {st st' : Tables × W} → Step st st' → IsDelivered st → IsDelivered st'
    unfolding publish publish_tenant
    Step-IsDelivered (publishes t w id now n to payload k lt fresh) v =
        row-IsDelivered t w _ n k lt fresh v
    Step-IsDelivered (publishes_tenant t w id now n tenant to payload k lt fresh) v =
        elim (Bool-cases (is_empty tenant)) [
          | inl e ↦ rw (e, publish_tenant) (row-IsDelivered t w _ n k lt fresh v)
          | inr e ↦ rw (e, publish_tenant) (row-IsDelivered t w _ n k lt fresh v)
        ]
    Step-IsDelivered (others t w o same) v = record {
      offset = v.offset;
      known = same ∙ v.known;
      ascending = v.ascending;
      covered = v.covered;
    }
    Step-IsDelivered (polls t w) v = poll_once-IsDelivered t w v

    pub Reach-IsDelivered : {st st' : Tables × W} → IsDelivered st → Reach st st' → IsDelivered st'
    Reach-IsDelivered v here = v
    Reach-IsDelivered v (next r s) = Step-IsDelivered s (Reach-IsDelivered v r)

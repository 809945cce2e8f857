-- ===== src/Eventbus/Late.antt =====
-- omkit/eventbus.py: an event that becomes visible after a higher id was polled.
use omkit_python.Prelude.{
  ℕ, zero, suc, ◌≤◌, ◌<◌, ◌≡◌, ◌≢◌, refl, ◌∙◌, inl, inr, Bool, false, Option, some, List, [], ◌∷◌,
  arith, elem, All, take, Bool-cases, Option-cases, nat_eq, eqb, pair_eq, pair_beq_iff,
}
use mathlib.Core.Path.{subst⁻¹}
use omkit_python.Prelude.Text.{Text, Bytes, text_eq}
use omkit_python.Prelude.Dict.{lookup, lookup-insert}
use omkit_python.Json.{Value}
use omkit_python.Eventbus.{
  Row, Event, Tables, Bus, publish, publish_tenant, fetch, pending, save_offset, deliver, poll_once,
}
use omkit_python.Eventbus.Order.{last_id_of}
use omkit_python.Eventbus.Batches.{Logs, round, handle-true, handle-false, deliver_logs}
use omkit_python.Eventbus.Delivery.{
  batch_end, poll_raised, poll_returned, fetch-known, Step, publishes, publishes_tenant, others,
  polls, Reach, here, next,
}

abbrev Above : ℕ → List Row → Type 0
Above n = All (λ r. n < r.id)

pending-Above : (topic : Text) (n : ℕ) (l : List Row) → Above n (pending topic n l)
unfolding pending
pending-Above topic n [] = tt
pending-Above topic n (r ∷ l) = ground (arith, pending-Above topic n l)

take-Above : (n k : ℕ) (l : List Row) → Above n l → Above n (take k l)
take-Above n zero l h = tt
take-Above n (suc k) [] h = tt
take-Above n (suc k) (r ∷ l) h = (h.0, take-Above n k l h.1)

-- The last id of a batch lies above the offset, if it has a row.
last_id_of-Above : (n d : ℕ) (l : List Row) → Above n l → n < d → n < last_id_of d l
last_id_of-Above n d [] h lt = lt
last_id_of-Above n d (r ∷ l) h lt = last_id_of-Above n r.id l h.1 h.0

last_id_of-zero : (n : ℕ) (l : List Row) → Above n l → last_id_of 0 l ≢ 0 → n < last_id_of 0 l
last_id_of-zero n [] h ne = absurd (ne refl)
last_id_of-zero n (r ∷ l) h ne = last_id_of-Above n r.id l h.1 h.0

module _ (loads_bytes : Bytes → Option Value) (loads_text : Text → Option Value) {W : Type 0}
    (handler : Event → W → Bool × W) (lg : Logs handler) where
  deliver_skips :
      (i n d : ℕ) (rs : List Row) (w : W)
      → i ≤ n
      → Above n rs
      → elem i (lg.log w) ≡ false
      → elem i (lg.log (deliver loads_bytes loads_text handler d rs w).1) ≡ false
  unfolding deliver
  deliver_skips i n d [] w le a h = h
  deliver_skips i n d (r ∷ rs) w le a h =
      elim (Bool-cases (round loads_bytes loads_text handler lg r w).0) [
        | inl on ↦
            rw (on, deliver)
              (deliver_skips i n r.id rs _ le a.1
                (rw (handle-true loads_bytes loads_text handler lg r w on) (ground arith)))
        | inr off ↦
            rw (off, deliver) (rw (handle-false loads_bytes loads_text handler lg r w off) h)
      ]

  module _ (b : Bus) (topic : Text) where
    -- The offset has passed the id, and no handler returned on it.
    pub record IsPassed (i : ℕ) (st : Tables × W) : Type 0 where
      pub offset : ℕ
      pub known : lookup (b.consumer, topic) st.0.offsets ≡ some offset
      pub passed : i ≤ offset
      pub unseen : elem i (lg.log st.1) ≡ false

    save_offset-IsPassed :
        (i n m : ℕ) (t : Tables) (w : W)
        → lookup (b.consumer, topic) t.offsets ≡ some n
        → i ≤ n
        → (m ≢ 0 → n < m)
        → elem i (lg.log w) ≡ false
        → IsPassed i (save_offset b topic m t, w)
    unfolding save_offset
    save_offset-IsPassed i n m t w k le up h = elim (Bool-cases (eqb m 0)) [
      | inl nothing ↦
          rw (nothing, save_offset) (record { offset = n; known = k; passed = le; unseen = h })
      | inr some_row ↦
          let above : n < m = up (λ z. ground arith) in
          rw (some_row, save_offset, k)
            (record {
              offset = m;
              known = rw (
                lookup-insert (b.consumer, topic) (b.consumer, topic) m t.offsets,
                (pair_beq_iff (b.consumer, topic) (b.consumer, topic)).1 refl,
              );
              passed = omega arith;
              unseen = h;
            })
    ]

    poll_once-IsPassed :
        (i : ℕ) (t : Tables) (w : W)
        → IsPassed i (t, w)
        → IsPassed i (poll_once loads_bytes loads_text handler b topic t w)
    poll_once-IsPassed i t w v =
        let rows = fetch-known loads_bytes loads_text handler lg b topic t v.offset v.known in
        let above : Above v.offset (fetch b topic t) =
          subst⁻¹ (Above v.offset) rows
            (take-Above v.offset b.batch _ (pending-Above topic v.offset t.events)) in
        let unseen = deliver_skips i v.offset 0 (fetch b topic t) w v.passed above v.unseen in
        elim (Option-cases (batch_end loads_bytes loads_text handler lg b topic t w).0) [
          | inl failed ↦
              subst⁻¹ (IsPassed i)
                (poll_raised loads_bytes loads_text handler lg b topic t w failed)
                (record { offset = v.offset; known = v.known; passed = v.passed; unseen = unseen })
          | inr (m, e) ↦
              let (at_end, _) =
                deliver_logs loads_bytes loads_text handler lg 0 (fetch b topic t) w e in
              subst⁻¹ (IsPassed i) (poll_returned loads_bytes loads_text handler lg b topic t w m e)
                (save_offset-IsPassed i v.offset m t _ v.known v.passed
                  (subst⁻¹ (λ x. x ≢ 0 → v.offset < x) at_end
                    (last_id_of-zero v.offset (fetch b topic t) above))
                  unseen)
        ]

    offsets-IsPassed :
        (i : ℕ) (t t' : Tables) (w : W)
        → lookup (b.consumer, topic) t'.offsets ≡ lookup (b.consumer, topic) t.offsets
        → IsPassed i (t, w)
        → IsPassed i (t', w)
    offsets-IsPassed i t t' w same v = record {
      offset = v.offset;
      known = same ∙ v.known;
      passed = v.passed;
      unseen = v.unseen;
    }

    Step-IsPassed :
        (i : ℕ) {st st' : Tables × W}
        → Step loads_bytes loads_text handler lg b topic st st'
        → IsPassed i st
        → IsPassed i st'
    unfolding publish publish_tenant
    Step-IsPassed i (publishes t w id now n to payload k lt fresh) v =
        offsets-IsPassed i t _ w refl v
    Step-IsPassed i (publishes_tenant t w id now n tenant to payload k lt fresh) v =
        offsets-IsPassed i t _ w (ground arith) v
    Step-IsPassed i (others t w o same) v = offsets-IsPassed i t _ w same v
    Step-IsPassed i (polls t w) v = poll_once-IsPassed i t w v

    -- An event that is not handled when the offset reaches its id is never handled: this is what
    -- happens to a publication whose transaction commits after one with a higher id was polled.
    pub late_event_lost :
        (i : ℕ) {st st' : Tables × W}
        → IsPassed i st
        → Reach loads_bytes loads_text handler lg b topic st st'
        → IsPassed i st'
    late_event_lost i v here = v
    late_event_lost i v (next r s) = Step-IsPassed i s (late_event_lost i v r)

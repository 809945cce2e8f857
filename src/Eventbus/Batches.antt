-- ===== src/Eventbus/Batches.antt =====
-- omkit/eventbus.py: a handler with a log, and what a batch does to it.
use omkit_python.Prelude.{
  ℕ, ◌≡◌, inl, inr, Bool, true, false, Option, some, List, [], ◌∷◌, arith, elem, Bool-cases,
  Option-cases, nat_eq, pair_eq,
}
use mathlib.Core.Path.{subst⁻¹}
use omkit_python.Prelude.Text.{Text, Bytes, text_eq}
use omkit_python.Json.{Value}
use omkit_python.Eventbus.{Row, Event, parse_payload, handle, deliver}
use omkit_python.Eventbus.Order.{Logged, last_id_of}

-- A handler that keeps a log of the events on which it returned.
pub record Logs {W : Type 0} (handler : Event → W → Bool × W) : Type 0 where
  pub log : W → List ℕ
  pub returns : (e : Event) (w : W) → (handler e w).0 ≡ true → log (handler e w).1 ≡ e.id ∷ log w
  pub raises : (e : Event) (w : W) → (handler e w).0 ≡ false → log (handler e w).1 ≡ log w

module _ (loads_bytes : Bytes → Option Value) (loads_text : Text → Option Value) {W : Type 0}
    (handler : Event → W → Bool × W) (lg : Logs handler) where
  abbrev pub round : Row → W → Bool × W
  round = handle loads_bytes loads_text handler

  pub handle-true :
      (r : Row) (w : W)
      → (handle loads_bytes loads_text handler r w).0 ≡ true
      → lg.log (handle loads_bytes loads_text handler r w).1 ≡ r.id ∷ lg.log w
  unfolding handle
  handle-true r w h = elim (Option-cases (parse_payload loads_bytes loads_text r.payload)) [
    | inl bad ↦ absurd (let e = h in ground arith)
    | inr (v, good) ↦ rw (good, handle) (lg.returns _ w (rw (good, handle) at h))
  ]

  pub handle-false :
      (r : Row) (w : W)
      → (handle loads_bytes loads_text handler r w).0 ≡ false
      → lg.log (handle loads_bytes loads_text handler r w).1 ≡ lg.log w
  unfolding handle
  handle-false r w h = elim (Option-cases (parse_payload loads_bytes loads_text r.payload)) [
    | inl bad ↦ rw (bad, handle)
    | inr (v, good) ↦ rw (good, handle) (lg.raises _ w (rw (good, handle) at h))
  ]

  -- What is in the log stays there, however a batch ends.
  pub deliver_keeps :
      (i d : ℕ) (rs : List Row) (w : W)
      → elem i (lg.log w) ≡ true
      → elem i (lg.log (deliver loads_bytes loads_text handler d rs w).1) ≡ true
  unfolding deliver
  deliver_keeps i d [] w h = h
  deliver_keeps i d (r ∷ rs) w h = elim (Bool-cases (round r w).0) [
    | inl on ↦
        rw (on, deliver)
          (deliver_keeps i r.id rs (round r w).1 (rw (handle-true r w on) (ground arith)))
    | inr off ↦ rw (off, deliver) (rw (handle-false r w off) h)
  ]

  pub deliver_logs :
      (d : ℕ) (rs : List Row) (w : W) {m : ℕ}
      → (deliver loads_bytes loads_text handler d rs w).0 ≡ some m
      → (m ≡ last_id_of d rs) × Logged (lg.log (deliver loads_bytes loads_text handler d rs w).1) rs
  unfolding deliver
  deliver_logs d [] w e = (ground arith, tt)
  deliver_logs d (r ∷ rs) w {m} e = elim (Bool-cases (round r w).0) [
    | inl on ↦
        let w' = (round r w).1 in
        let (at_end, logged) = deliver_logs r.id rs w' (rw (on, deliver) at e) in
        let seen : elem r.id (lg.log w') ≡ true = rw (handle-true r w on) (ground arith) in
        let step : deliver loads_bytes loads_text handler d (r ∷ rs) w
            ≡ deliver loads_bytes loads_text handler r.id rs w' =
          rw (on, deliver) in
        subst⁻¹ (λ q. (m ≡ last_id_of r.id rs) × Logged (lg.log q.1) (r ∷ rs)) step
          (at_end, (deliver_keeps r.id r.id rs w' seen, logged))
    | inr off ↦ absurd (let e' = rw (off, deliver) at e in ground (arith, e'))
  ]

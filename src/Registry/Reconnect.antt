-- ===== src/Registry/Reconnect.antt =====
-- omkit/provider/registry.py: the waits between two connections of `_subscribe_valkey`, and the tasks
-- after a reconnection.
use omkit_python.Prelude.{
  ℕ, ◌*◌, ◌≤◌, ◌≡◌, ◌⊎◌, refl, ap, inl, inr, Bool, true, false, List, [], ◌∷◌, arith, if◌then◌else◌,
  Bool-cases, ltb, All,
}
use omkit_python.Prelude.Text.{Text, text_eq}
use omkit_python.Registry.{Row, Registry, rows, await, reconcile_all}
use omkit_python.Registry.Watch.{
  End, closed, lost, abandoned, Attempt, unreachable, subscribed, ended, Then, again, leave, sleep,
  double, disconnected, listen, attempt, watch, first_backoff,
}
use omkit_python.Registry.Shutdown.{Rounds, Then-cases}

abbrev pub Seconds : ℕ → Type 0
Seconds s = (1 ≤ s) × (s ≤ 60)

-- At most a minute.
abbrev pub cap : ℕ → ℕ
cap p = if ltb 60 p then 60 else p

-- `min(2 ^ i, 60)` for the next rounds, if none of them connects.
unfoldable pub powers : ℕ → Rounds → List ℕ
powers p [] = []
powers p (x ∷ rounds) = cap p ∷ powers (p * 2) rounds

unfoldable pub none_connects : Rounds → Bool
none_connects [] = true
none_connects ((unreachable, es) ∷ rounds) = none_connects rounds
none_connects ((subscribed a es es' ms e, es'') ∷ rounds) = false

double-Seconds : (b : ℕ) → Seconds b → Seconds (double b)
unfolding double
double-Seconds b v = ground arith

-- The backoff after a round that found the backoff b.
abbrev Fits : ℕ → ℕ → Then → Type 0
Fits b b' (sleep s) = (s ≡ b ⊎ s ≡ 1) × (b' ≡ double s)
Fits b b' again = b' ≡ 1
Fits b b' leave = b' ≡ 1

ended-Fits : (e : End) (b : ℕ) (r : Registry) → Fits b (ended e r).1.0 (ended e r).1.1
unfolding ended disconnected
ended-Fits closed b r = refl
ended-Fits lost b r = (inr refl, refl)
ended-Fits abandoned b r = refl

Fits-Seconds :
    (b b' : ℕ) (t : Then)
    → Fits b b' t
    → Seconds b
    → Seconds b' × ((n : ℕ) → t ≡ sleep n → Seconds n)
Fits-Seconds b b' again e v = (ground arith, λ n h. absurd (ground arith))
Fits-Seconds b b' leave e v = (ground arith, λ n h. absurd (ground arith))
Fits-Seconds b b' (sleep s) (from, e) v =
    let v' : Seconds s = ground arith in (ground (arith, double-Seconds s v'), λ n h. ground arith)

double-cap : (p : ℕ) → double (cap p) ≡ cap (p * 2)
unfolding double
double-cap p = ground arith

module _ (known : Text → Bool) (constructs : Row → Bool) where
  attempt-Fits :
      (a : Attempt) (b : ℕ) (r : Registry)
      → let (r', (b', then_)) = attempt known constructs a b r in Fits b b' then_
  unfolding attempt disconnected
  attempt-Fits unreachable b r = (inl refl, refl)
  attempt-Fits (subscribed a es es' ms e) b r =
      let q = reconcile_all known constructs a es es' r in
      let l = listen known constructs ms q.0 in
      elim (Bool-cases q.1) [
        | inr failed ↦ rw (failed, attempt) (inr refl, refl)
        | inl done ↦ elim (Bool-cases l.1) [
          | inr failed ↦ rw (done, attempt, failed) (inr refl, refl)
          | inl heard ↦ rw (done, attempt, heard) (ended-Fits e b l.0)
        ]
      ]

  watch-Seconds :
      (rounds : Rounds) (b : ℕ) (r : Registry)
      → Seconds b
      → All Seconds (watch known constructs rounds b r).waits
  unfolding watch
  watch-Seconds [] b r v = tt
  watch-Seconds ((a, es) ∷ rounds) b r v =
      let q = attempt known constructs a b r in
      let (v', slept) = Fits-Seconds b q.1.0 q.1.1 (attempt-Fits a b r) v in
      let rest = watch-Seconds rounds q.1.0 (await es q.0) v' in
      elim (Then-cases q.1.1) [
        | inl e ↦ rw (e, watch) rest
        | inr (inl e) ↦ rw (e, watch) tt
        | inr (inr (n, e)) ↦ rw (e, watch) (slept n e, rest)
      ]

  watch-powers :
      (rounds : Rounds) (p : ℕ) (r : Registry)
      → none_connects rounds ≡ true
      → (watch known constructs rounds (cap p) r).waits ≡ powers p rounds
  unfolding watch attempt disconnected powers none_connects double
  watch-powers [] p r h = refl
  watch-powers ((unreachable, es) ∷ rounds) p r h =
      ap (◌∷◌ (cap p)) (rw (double-cap p) (watch-powers rounds (p * 2) (await es r) h))
  watch-powers ((subscribed a es es' ms e, es'') ∷ rounds) p r h = absurd (ground arith)

  -- The waits before the next connections are from 1 to 60 seconds, whatever the rounds bring; and
  -- while none of them connects, they are 1, 2, 4, 8, 16 and 32 seconds and then 60.
  pub watch-waits :
      (rounds : Rounds) (r : Registry)
      → All Seconds (watch known constructs rounds first_backoff r).waits
        × (none_connects rounds ≡ true
            → (watch known constructs rounds first_backoff r).waits ≡ powers 1 rounds)
  watch-waits rounds r =
      (watch-Seconds rounds 1 r (omega arith, omega arith), watch-powers rounds 1 r)

  -- A round that subscribes and gets no message.
  abbrev pub connects : List Row → End → Rounds
  connects l e = (subscribed (rows l) [] [] [] e, []) ∷ []

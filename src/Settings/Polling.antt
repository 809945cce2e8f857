-- ===== src/Settings/Polling.antt =====
-- omkit/settings.py: what one poll of the table does to the cache.
use omkit_python.Prelude.{
  ℕ, ◌≡◌, refl, inl, inr, true, false, Option, none, some, [], ◌∷◌, if◌then◌else◌, arith,
  Option-cases, Bool-cases, ◌==◌,
}
use omkit_python.Prelude.Text.{Text, Bytes, text_eq, text_beq_iff}
use omkit_python.Prelude.Dict.{lookup, insert, lookup-insert, is_some}
use omkit_python.Prelude.Unique.{IsUnique}
use omkit_python.Json.{Value}
use omkit_python.Settings.{
  Setting, Table, Manager, later, save_latest, newer, select_newer, insert_by_time, oldest_first,
  parse_value, fire, callbacks, poll_loop, poll_once,
}

pub select_newer-lookup :
    (seen : Option ℕ) (k : Text) (t : Table)
    → IsUnique t
    → lookup k (select_newer seen t)
      ≡ elim (lookup k t) [ none ↦ none | some s ↦ if newer seen s then some s else none ]
unfolding select_newer lookup
select_newer-lookup seen k [] u = refl
select_newer-lookup seen k ((j, s) ∷ t) u =
    ground (arith, text_beq_iff j k, u.0, select_newer-lookup seen k t u.1)

select_newer-IsUnique : (seen : Option ℕ) (t : Table) → IsUnique t → IsUnique (select_newer seen t)
unfolding select_newer
select_newer-IsUnique seen [] u = tt
select_newer-IsUnique seen ((j, s) ∷ t) u =
    ground (arith, u.0, select_newer-lookup seen j t u.1, select_newer-IsUnique seen t u.1)

insert_by_time-lookup :
    (p : Text × Setting) (k : Text) (t : Table)
    → lookup p.0 t ≡ none
    → lookup k (insert_by_time p t) ≡ (if p.0 == k then some p.1 else lookup k t)
unfolding insert_by_time lookup
insert_by_time-lookup p k [] h = refl
insert_by_time-lookup p k (q ∷ t) h = ground (
  arith,
  text_beq_iff p.0 k,
  text_beq_iff q.0 k,
  text_beq_iff q.0 p.0,
  insert_by_time-lookup p k t,
)

insert_by_time-IsUnique :
    (p : Text × Setting) (t : Table)
    → lookup p.0 t ≡ none
    → IsUnique t
    → IsUnique (insert_by_time p t)
unfolding insert_by_time lookup
insert_by_time-IsUnique p [] h u = (h, tt)
insert_by_time-IsUnique p (q ∷ t) h u = ground (
  arith,
  u,
  text_beq_iff q.0 p.0,
  text_beq_iff p.0 q.0,
  insert_by_time-lookup p q.0 t,
  insert_by_time-IsUnique p t,
)

oldest_first-same :
    (k : Text) (t : Table)
    → IsUnique t
    → (lookup k (oldest_first t) ≡ lookup k t) × IsUnique (oldest_first t)
unfolding oldest_first lookup
oldest_first-same k [] u = (refl, tt)
oldest_first-same k ((j, s) ∷ t) u = ground (
  arith,
  u.0,
  oldest_first-same k t u.1,
  oldest_first-same j t u.1,
  insert_by_time-lookup (j, s) k (oldest_first t),
  insert_by_time-IsUnique (j, s) (oldest_first t),
)

-- The time that a pass over rows ends with.
unfoldable pub latest_of : Option ℕ → Table → Option ℕ
unfolding later
latest_of l [] = l
latest_of l ((k, s) ∷ t) = latest_of (later l s.updated_at) t

pub latest_of-none : (l : Option ℕ) (t : Table) → latest_of l t ≡ none → l ≡ none
unfolding latest_of later
latest_of-none l [] h = h
latest_of-none none ((k, s) ∷ t) h = refl
latest_of-none (some n) ((k, s) ∷ t) h =
    ground (arith, latest_of-none (later (some n) s.updated_at) t h)

pub saved :
    (l : Option ℕ) (m : Manager)
    → ((save_latest l m).cache ≡ m.cache)
      × ((l ≡ none → m.last_seen ≡ none) → (save_latest l m).last_seen ≡ l)
unfolding save_latest
saved none m = (refl, λ h. h refl)
saved (some n) m = (refl, λ h. refl)

module _ (decode : Bytes → Option Text) (loads : Text → Option Value) where
  abbrev pub parse : Setting → Option Value
  parse s = parse_value decode loads s.value_json

  -- The rows that are no secrets can be decoded.
  abbrev pub IsReadable : Table → Type 0
  IsReadable t =
      (k : Text) (s : Setting)
      → lookup k t ≡ some s
      → s.is_secret ≡ false
      → is_some (parse s) ≡ true

  -- What a key has in the cache after a pass over rows.
  abbrev pub picked : Option Setting → Option Value → Option Value
  picked none old = old
  picked (some s) old = if s.is_secret then old else parse s

  module _ {W : Type 0} (call : ℕ → Value → W → W) where
    abbrev Passed : Option ℕ → Text → Table → Manager → Option (Option ℕ) × Manager × W → Type 0
    Passed l k t m (latest, m', w') =
        (latest ≡ some (latest_of l t))
        × (lookup k m'.cache ≡ picked (lookup k t) (lookup k m.cache))
        × (m'.last_seen ≡ m.last_seen)

    poll_loop-Passed :
        (l : Option ℕ) (k : Text) (t : Table) (m : Manager) (w : W)
        → IsUnique t
        → IsReadable t
        → Passed l k t m (poll_loop decode loads call l t m w)
    unfolding poll_loop lookup latest_of
    poll_loop-Passed l k [] m w u r = (refl, refl, refl)
    poll_loop-Passed l k ((j, s) ∷ t) m w u r =
        let l' = later l s.updated_at in
        let r' : IsReadable t = λ i q e p. r i q (ground (arith, u.0, e, text_beq_iff j i)) p in
        elim (Bool-cases s.is_secret) [
          | inl secret ↦
              rw (secret, poll_loop)
                (let rest = poll_loop-Passed l' k t m w u.1 r' in
                  ground (arith, rest, secret, text_beq_iff j k, u.0))
          | inr shown ↦ elim (Option-cases (parse s)) [
            | inl bad ↦ absurd (ground (arith, bad, r j s, text_beq_iff j j, shown))
            | inr (v, good) ↦
                rw (shown, poll_loop, good)
                  (let m' = record m { cache = insert j v m.cache } in
                    let rest =
                      poll_loop-Passed l' k t m' (fire decode loads call (callbacks j m) v w) u.1
                        r' in
                    ground (
                      arith,
                      rest,
                      shown,
                      good,
                      text_beq_iff j k,
                      u.0,
                      lookup-insert j k v m.cache,
                    ))
          ]
        ]

    -- The rows that a poll reads.
    abbrev pub batch : Manager → Table → Table
    batch m t = oldest_first (select_newer m.last_seen t)

    abbrev pub polled : Table → Manager → W → Manager × W
    polled t m w = poll_once decode loads call (some t) m w

    -- If the rows that are newer than the last that was seen, and no secrets, can be decoded, then
    -- after a poll a key has the value of its row, if it has such a row, and what it had before
    -- otherwise: a row that became a secret, or went, leaves its old value in the cache. Keys are
    -- unique in the table.
    pub poll_once_lookup :
        (k : Text) (t : Table) (m : Manager) (w : W)
        → IsUnique t
        → IsReadable (select_newer m.last_seen t)
        → (lookup k (polled t m w).0.cache
            ≡ picked (lookup k (select_newer m.last_seen t)) (lookup k m.cache))
          × ((polled t m w).0.last_seen ≡ latest_of m.last_seen (batch m t))
    unfolding poll_once
    poll_once_lookup k t m w u r =
        let u' = select_newer-IsUnique m.last_seen t u in
        let rows = oldest_first-same k (select_newer m.last_seen t) u' in
        let l = latest_of m.last_seen (batch m t) in
        let loop = poll_loop decode loads call m.last_seen (batch m t) m w in
        let done = poll_loop-Passed m.last_seen k (batch m t) m w rows.1 (λ i s e p.
          r i s (ground (arith, e, oldest_first-same i (select_newer m.last_seen t) u')) p) in
        rw (done.0, poll_once)
          (ground (arith, done, rows.0, saved l loop.1, latest_of-none m.last_seen (batch m t)))

-- ===== src/Settings/Fresh.antt =====
-- omkit/settings.py: polls keep the cache up to date with a table that is written at growing times,
-- if the first load saw a row.
use omkit_python.Prelude.{
  ℕ, ◌<◌, ◌≤◌, ◌≡◌, refl, inl, inr, false, Option, none, some, List, [], ◌∷◌, ltb, arith,
  Bool-cases,
}
use omkit_python.Prelude.Text.{Text, Bytes, text_eq}
use omkit_python.Prelude.Dict.{lookup, insert, erase, lookup-insert, lookup-erase}
use omkit_python.Prelude.Unique.{IsUnique, insert-IsUnique, erase-IsUnique}
use omkit_python.Json.{Value}
use omkit_python.Settings.{
  Setting, Table, Manager, later, newer, select_newer, poll_loop, poll_once, oldest_first,
  save_latest,
}
use omkit_python.Settings.Polling.{
  parse, IsReadable, batch, polled, latest_of, poll_once_lookup, select_newer-lookup,
}

pub latest_of-some : (n : ℕ) (t : Table) → (l : ℕ) × (latest_of (some n) t ≡ some l)
unfolding latest_of later
latest_of-some n [] = (n, refl)
latest_of-some n ((k, s) ∷ t) = elim (Bool-cases (ltb n s.updated_at)) [
  | inl e ↦ rw (e, latest_of, later) (latest_of-some s.updated_at t)
  | inr e ↦ rw (e, latest_of, later) (latest_of-some n t)
]

module _ (decode : Bytes → Option Text) (loads : Text → Option Value) where
  -- The rows up to the last time that was seen, but for the secrets, are in the cache.
  pub record IsSynced (t : Table) (m : Manager) : Type 0 where
    pub unique : IsUnique t
    pub seen : ℕ
    pub last_seen : m.last_seen ≡ some seen
    pub fresh :
        (k : Text) (s : Setting)
        → lookup k t ≡ some s
        → s.is_secret ≡ false
        → s.updated_at ≤ seen
        → lookup k m.cache ≡ parse decode loads s

  module _ {W : Type 0} (call : ℕ → Value → W → W) where
    -- A poll brings the cache up to date with all rows that are no secrets.
    caught_up :
        (t : Table) (m : Manager) (w : W) (k : Text) (s : Setting)
        → IsSynced t m
        → IsReadable decode loads (select_newer m.last_seen t)
        → lookup k t ≡ some s
        → s.is_secret ≡ false
        → lookup k (polled decode loads call t m w).0.cache ≡ parse decode loads s
    unfolding newer
    caught_up t m w k s v r e p = ground (
      arith,
      poll_once_lookup decode loads call k t m w v.unique r,
      select_newer-lookup m.last_seen k t v.unique,
      v.last_seen,
      v.fresh k s e p,
      e,
      p,
    )

    -- What happens between two polls, and the polls.
    pub data Step : Table × Manager × W → Table × Manager × W → Type 0 where
      writes :
          (t : Table) (m : Manager) (w : W) (k : Text) (s : Setting) (n : ℕ)
          → m.last_seen ≡ some n
          → n < s.updated_at
          → Step (t, m, w) (insert k s t, m, w)
      deletes : (t : Table) (m : Manager) (w : W) (k : Text) → Step (t, m, w) (erase k t, m, w)
      polls :
          (t : Table) (m : Manager) (w : W)
          → IsReadable decode loads (select_newer m.last_seen t)
          → Step
              (t, m, w)
              (t, (polled decode loads call t m w).0, (polled decode loads call t m w).1)

    pub data Reach (st : Table × Manager × W) : Table × Manager × W → Type 0 where
      here : Reach st st
      next : {st' st'' : Table × Manager × W} → Reach st st' → Step st' st'' → Reach st st''

    Step-IsSynced :
        {st st' : Table × Manager × W} → Step st st' → IsSynced st.0 st.1 → IsSynced st'.0 st'.1
    Step-IsSynced (writes t m w k s n e lt) v = record {
      unique = insert-IsUnique k s t v.unique;
      seen = v.seen;
      last_seen = v.last_seen;
      fresh = λ j q h p le.
          v.fresh j q (ground (arith, h, lookup-insert k j s t, e, v.last_seen, lt, le)) p le;
    }
    Step-IsSynced (deletes t m w k) v = record {
      unique = erase-IsUnique k t v.unique;
      seen = v.seen;
      last_seen = v.last_seen;
      fresh = λ j q h p le. v.fresh j q (ground (arith, h, lookup-erase k j t)) p le;
    }
    Step-IsSynced (polls t m w r) v =
        let (l, e) = latest_of-some v.seen (batch decode loads call m t) in
        record {
          unique = v.unique;
          seen = l;
          last_seen =
              ground
                (arith, e, v.last_seen, (poll_once_lookup decode loads call [] t m w v.unique r).1);
          fresh = λ k s h p le. caught_up t m w k s v r h p;
        }

    Reach-IsSynced :
        {st st' : Table × Manager × W} → Reach st st' → IsSynced st.0 st.1 → IsSynced st'.0 st'.1
    Reach-IsSynced here v = v
    Reach-IsSynced (next r s) v = Step-IsSynced s (Reach-IsSynced r v)

    -- Start where the cache has the rows up to the last time that was seen, and let rows be written
    -- at times after the last that was seen, deleted, and polled, in any order. In every state that
    -- is reached, one poll gives every row that is no secret its value in the cache, if the new
    -- rows can be decoded.
    pub poll_catches_up :
        {t t' : Table} {m m' : Manager} {w w' : W} (k : Text) (s : Setting)
        → IsSynced t m
        → Reach (t, m, w) (t', m', w')
        → IsReadable decode loads (select_newer m'.last_seen t')
        → lookup k t' ≡ some s
        → s.is_secret ≡ false
        → lookup k (polled decode loads call t' m' w').0.cache ≡ parse decode loads s
    poll_catches_up {t'} {m'} {w'} k s v r ok_rows e p =
        caught_up t' m' w' k s (Reach-IsSynced r v) ok_rows e p

    abbrev pub poll_each : List Table → Manager → W → Manager × W
    poll_each [] m w = (m, w)
    poll_each (t ∷ ts) m w = let (m', w') = polled decode loads call t m w in poll_each ts m' w'

    select_newer-none : (t : Table) → select_newer none t ≡ []
    unfolding select_newer newer
    select_newer-none [] = refl
    select_newer-none ((k, s) ∷ t) = ground (arith, select_newer-none t)

    polled-none :
        (t : Table) (m : Manager) (w : W)
        → m.last_seen ≡ none
        → polled decode loads call t m w ≡ (m, w)
    unfolding poll_once poll_loop oldest_first save_latest
    polled-none t m w e =
        let nothing : select_newer m.last_seen t ≡ [] = ground (arith, e, select_newer-none t) in
        ground (arith, nothing, e)

    -- A manager whose first load failed or found no row has no last time, and no poll of any table
    -- afterwards changes anything or calls a listener.
    pub polls_blind :
        (ts : List Table) (m : Manager) (w : W) → m.last_seen ≡ none → poll_each ts m w ≡ (m, w)
    polls_blind [] m w e = refl
    polls_blind (t ∷ ts) m w e = rw (polled-none t m w e) (polls_blind ts m w e)

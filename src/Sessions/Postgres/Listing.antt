-- ===== src/Sessions/Postgres/Listing.antt =====
-- omkit/sessions.py: what `PostgresSessionStore.list` returns.
use omkit_python.Prelude.{
  ℕ, ◌≤◌, ◌≡◌, ◌∙◌, refl, Bool, false, ◌||◌, ◌&&◌, Option, none, some, List, [], ◌∷◌, ◌==◌, elem,
  All, arith, ltb,
}
use omkit_python.Prelude.Text.{Text, Bytes, text_eq, text_beq_iff}
use omkit_python.Prelude.Dict.{lookup, keys}
use omkit_python.Prelude.Unique.{IsUnique}
use omkit_python.Prelude.Exceptions.{Result, ok, >>=-eq-ok}
use omkit_python.Json.{Value, Column}
use omkit_python.Sessions.{Session, Error}
use omkit_python.Sessions.Postgres.{
  Row, Table, live_rows, insert_newest, newest_first, session_of, sessions_of, list,
}
use omkit_python.Sessions.Postgres.Isolation.{session_of_ok}

-- Whether a row is one that the tenant may see.
abbrev pub shown : ℕ → Text → Option Row → Bool
shown now id none = false
shown now id (some r) = r.tenant_id == id && ltb now r.expires_at

abbrev pub tokens : List Session → List Text
tokens [] = []
tokens (s ∷ l) = s.token ∷ tokens l

-- Ages fall along the list.
abbrev pub NewestFirst : List Session → Type 0
NewestFirst [] = Unit
NewestFirst (s ∷ l) = All (λ u. u.created_at ≤ s.created_at) l × NewestFirst l

abbrev Sorted : Table → Type 0
Sorted [] = Unit
Sorted (p ∷ t) = All (λ q. q.1.created_at ≤ p.1.created_at) t × Sorted t

live_rows-keys :
    (now : ℕ) (id k : Text) (t : Table)
    → IsUnique t
    → elem k (keys (live_rows now id t)) ≡ shown now id (lookup k t)
unfolding live_rows lookup
live_rows-keys now id k [] u = refl
live_rows-keys now id k ((j, r) ∷ t) u =
    ground (arith, text_beq_iff j k, live_rows-keys now id k t u.1, u.0)

insert_newest-keys :
    (k : Text) (p : Text × Row) (t : Table)
    → elem k (keys (insert_newest p t)) ≡ (p.0 == k || elem k (keys t))
unfolding insert_newest
insert_newest-keys k p [] = refl
insert_newest-keys k p (q ∷ t) = ground (arith, insert_newest-keys k p t)

newest_first-keys : (k : Text) (t : Table) → elem k (keys (newest_first t)) ≡ elem k (keys t)
unfolding newest_first
newest_first-keys k [] = refl
newest_first-keys k (p ∷ t) =
    ground (arith, insert_newest-keys k p (newest_first t), newest_first-keys k t)

module _ (P : Text × Row → Type 0) where
  insert_newest-All : (p : Text × Row) (t : Table) → P p → All P t → All P (insert_newest p t)
  unfolding insert_newest
  insert_newest-All p [] h a = (h, tt)
  insert_newest-All p (q ∷ t) h a = ground (arith, insert_newest-All p t h a.1)

  newest_first-All : (t : Table) → All P t → All P (newest_first t)
  unfolding newest_first
  newest_first-All [] a = tt
  newest_first-All (p ∷ t) a = insert_newest-All p (newest_first t) a.0 (newest_first-All t a.1)

All-weaken :
    (m n : ℕ) (t : Table)
    → m ≤ n
    → All (λ q. q.1.created_at ≤ m) t
    → All (λ q. q.1.created_at ≤ n) t
All-weaken m n [] h a = tt
All-weaken m n (q ∷ t) h a = (omega (arith, a.0), All-weaken m n t h a.1)

insert_newest-Sorted : (p : Text × Row) (t : Table) → Sorted t → Sorted (insert_newest p t)
unfolding insert_newest
insert_newest-Sorted p [] s = (tt, tt)
insert_newest-Sorted p (q ∷ t) s = ground (
  arith,
  insert_newest-Sorted p t s.1,
  insert_newest-All (λ r. r.1.created_at ≤ q.1.created_at) p t,
  All-weaken q.1.created_at p.1.created_at t,
)

newest_first-Sorted : (t : Table) → Sorted (newest_first t)
unfolding newest_first
newest_first-Sorted [] = tt
newest_first-Sorted (p ∷ t) = insert_newest-Sorted p (newest_first t) (newest_first-Sorted t)

live_rows-tenant :
    (now : ℕ) (id : Text) (t : Table) → All (λ p. p.1.tenant_id ≡ id) (live_rows now id t)
unfolding live_rows
live_rows-tenant now id [] = tt
live_rows-tenant now id ((j, r) ∷ t) =
    ground (arith, text_beq_iff r.tenant_id id, live_rows-tenant now id t)

module _ (loads_bytes : Bytes → Option Value) (loads_text : Text → Option Value)
    (as_uuid : Text → Option Text) (jsonb : Text → Column) where
  abbrev read_all : Table → Result Error (List Session)
  read_all = sessions_of loads_bytes loads_text as_uuid jsonb

  sessions_of-cons :
      (token : Text) (r : Row) (t : Table) (l : List Session)
      → read_all ((token, r) ∷ t) ≡ ok l
      → (s : Session) × (l' : List Session) × (read_all t ≡ ok l')
        × (l ≡ s ∷ l')
        × (session_of loads_bytes loads_text as_uuid jsonb token r ≡ ok s)
  unfolding sessions_of
  sessions_of-cons token r t l h =
      let (s, e, h') = >>=-eq-ok (session_of loads_bytes loads_text as_uuid jsonb token r) _ h in
      let (l', e', h'') = >>=-eq-ok (read_all t) _ h' in (s, l', e', ground (arith, h''), e)

  sessions_of-tokens : (t : Table) (l : List Session) → read_all t ≡ ok l → tokens l ≡ keys t
  unfolding sessions_of
  sessions_of-tokens [] l h = ground (arith, h)
  sessions_of-tokens ((token, r) ∷ t) l h =
      let (s, l', e', e, o) = sessions_of-cons token r t l h in
      rw e (
        ground (
          arith,
          sessions_of-tokens t l' e',
          session_of_ok loads_bytes loads_text as_uuid jsonb token r s o,
        ))

  sessions_of-All :
      (P : Text × Row → Type 0) (Q : Session → Type 0)
      → ((token : Text) (r : Row) (s : Session)
          → session_of loads_bytes loads_text as_uuid jsonb token r ≡ ok s
          → P (token, r)
          → Q s)
      → (t : Table) (l : List Session) → read_all t ≡ ok l
      → All P t
      → All Q l
  unfolding sessions_of
  sessions_of-All P Q f [] l h a = let e : l ≡ [] = ground (arith, h) in rw e tt
  sessions_of-All P Q f ((token, r) ∷ t) l h a =
      let (s, l', e', e, o) = sessions_of-cons token r t l h in
      rw e (f token r s o a.0, sessions_of-All P Q f t l' e' a.1)

  sessions_of-NewestFirst :
      (t : Table) (l : List Session) → read_all t ≡ ok l → Sorted t → NewestFirst l
  unfolding sessions_of
  sessions_of-NewestFirst [] l h a = let e : l ≡ [] = ground (arith, h) in rw e tt
  sessions_of-NewestFirst ((token, r) ∷ t) l h a =
      let (s, l', e', e, o) = sessions_of-cons token r t l h in
      let read = session_of_ok loads_bytes loads_text as_uuid jsonb in
      rw e (
        sessions_of-All (λ q. q.1.created_at ≤ r.created_at) (λ u. u.created_at ≤ s.created_at)
            (λ k q u o' le. omega (arith, le, (read k q u o').3, (read token r s o).3)) t l' e' a.0,
        sessions_of-NewestFirst t l' e' a.1,
      )

  -- If `list` returns for a tenant whose id is a UUID, it returns sessions of this tenant only, the
  -- newest first, and a token is among theirs exactly if the table has an unexpired row of the
  -- tenant under it. Tokens are unique in the table.
  pub list_exact :
      (now : ℕ) (q id k : Text) (t : Table) (l : List Session)
      → as_uuid q ≡ some id
      → IsUnique t
      → list loads_bytes loads_text as_uuid jsonb now q t ≡ ok l
      → (elem k (tokens l) ≡ shown now id (lookup k t))
        × All (λ s. s.tenant_id ≡ id) l
        × NewestFirst l
  unfolding list
  list_exact now q id k t l e u h =
      let rows = live_rows now id t in
      let h' : read_all (newest_first rows) ≡ ok l = rw (e, list) at h in
      (
        ground (
          arith,
          sessions_of-tokens (newest_first rows) l h',
          newest_first-keys k rows,
          live_rows-keys now id k t u,
        ),
        sessions_of-All (λ p. p.1.tenant_id ≡ id) (λ s. s.tenant_id ≡ id)
            (λ token r s o same.
              (session_of_ok loads_bytes loads_text as_uuid jsonb token r s o).1 ∙ same)
            (newest_first rows) l h'
            (newest_first-All (λ p. p.1.tenant_id ≡ id) rows (live_rows-tenant now id t)),
        sessions_of-NewestFirst (newest_first rows) l h' (newest_first-Sorted rows),
      )

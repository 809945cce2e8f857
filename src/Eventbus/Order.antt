-- ===== src/Eventbus/Order.antt =====
-- omkit/eventbus.py: the order of the table, and what a batch covers.
use omkit_python.Prelude.{
  ℕ, zero, suc, ◌≤◌, ◌<◌, ◌≡◌, ◌≢◌, inl, inr, true, ◌&&◌, List, [], ◌∷◌, arith, ltb, ◌==◌, elem,
  All, take, Bool-cases, nat_eq,
}
use mathlib.Core.Path.{subst, subst⁻¹}
use omkit_python.Prelude.Text.{Text, text_eq}
use omkit_python.Eventbus.{Row, insert_row, pending}

-- The ids grow along the list, from above `n`.
abbrev pub Ascending : ℕ → List Row → Type 0
Ascending n [] = Unit
Ascending n (r ∷ l) = (n < r.id) × Ascending r.id l

-- Every row of the topic with an id of at most `m` is in the log.
abbrev pub Covered : Text → ℕ → List ℕ → List Row → Type 0
Covered topic m log l = All (λ r. (r.topic == topic) ≡ true → r.id ≤ m → elem r.id log ≡ true) l

abbrev pub last_id_of : ℕ → List Row → ℕ
last_id_of d [] = d
last_id_of d (r ∷ l) = last_id_of r.id l

pub insert_row-Ascending :
    (n : ℕ) (r : Row) (l : List Row)
    → n < r.id
    → All (λ q. q.id ≢ r.id) l
    → Ascending n l
    → Ascending n (insert_row r l)
unfolding insert_row
insert_row-Ascending n r [] h fresh a = (h, tt)
insert_row-Ascending n r (q ∷ l) h fresh a = ground (arith, fresh.0, insert_row-Ascending q.id r l)

pub insert_row-Covered :
    (topic : Text) (m : ℕ) (log : List ℕ) (r : Row) (l : List Row)
    → m < r.id
    → Covered topic m log l
    → Covered topic m log (insert_row r l)
unfolding insert_row
insert_row-Covered topic m log r [] h c = ((λ e le. absurd (omega arith)), tt)
insert_row-Covered topic m log r (q ∷ l) h c = elim (Bool-cases (ltb r.id q.id)) [
  | inl before ↦ rw (before, insert_row) ((λ e le. absurd (omega arith)), c)
  | inr after ↦ rw (after, insert_row) (c.0, insert_row-Covered topic m log r l h c.1)
]

abbrev pub Logged : List ℕ → List Row → Type 0
Logged log = All (λ r. elem r.id log ≡ true)

-- One more row before the others, of which a batch is known to cover its part.
module _ (topic : Text) (log : List ℕ) (n lo d k : ℕ) (r : Row) (l : List Row) where
  cons-Covered :
      lo < r.id
      → d ≤ lo
      → ((r.topic == topic) ≡ true → r.id ≤ n → elem r.id log ≡ true)
      → ((e j : ℕ)
          → e ≤ r.id
          → Logged log (take j (pending topic n l))
          → Covered topic (last_id_of e (take j (pending topic n l))) log l)
      → Logged log (take k (pending topic n (r ∷ l)))
      → Covered topic (last_id_of d (take k (pending topic n (r ∷ l)))) log (r ∷ l)
  unfolding pending
  cons-Covered a le c ih h = elim (Bool-cases (r.topic == topic && ltb n r.id)) [
    | inl match ↦
        let e : pending topic n (r ∷ l) ≡ r ∷ pending topic n l = rw match in
        subst⁻¹ (λ q. Covered topic (last_id_of d (take k q)) log (r ∷ l)) e
          (matched k (subst (λ q. Logged log (take k q)) e h))
    | inr skip ↦
        let e : pending topic n (r ∷ l) ≡ pending topic n l = rw skip in
        subst⁻¹ (λ q. Covered topic (last_id_of d (take k q)) log (r ∷ l)) e
          (
            (λ t below. c t (ground arith)),
            ih d k (omega arith) (subst (λ q. Logged log (take k q)) e h),
          )
  ]
    where
      matched :
          (j : ℕ)
          → Logged log (take j (r ∷ pending topic n l))
          → Covered topic (last_id_of d (take j (r ∷ pending topic n l))) log (r ∷ l)
      matched zero h' = ((λ e below. absurd (omega arith)), ih d zero (omega arith) tt)
      matched (suc j) h' = ((λ e below. h'.0), ih r.id j (omega arith) h'.1)

-- A handled batch covers its topic up to the id of its last row, since the rows are in order.
pub take-Covered :
    (topic : Text) (log : List ℕ) (n lo d k : ℕ) (l : List Row)
    → Ascending lo l
    → d ≤ lo
    → Covered topic n log l
    → Logged log (take k (pending topic n l))
    → Covered topic (last_id_of d (take k (pending topic n l))) log l
unfolding pending
take-Covered topic log n lo d k [] a le c h = tt
take-Covered topic log n lo d k (r ∷ l) a le c h =
    cons-Covered topic log n lo d k r l a.0 le c.0
      (λ e j le' h'. take-Covered topic log n r.id e j l a.1 le' c.1 h') h

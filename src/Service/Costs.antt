-- ===== src/Service/Costs.antt =====
-- omkit/cost.py: what the counter adds up to.
use omkit_python.Prelude.{
  ℕ, zero, suc, ◌+◌, ◌≡◌, ◌≢◌, Bool, true, ◌&&◌, List, [], ◌∷◌, if◌then◌else◌, ◌==◌, arith, elem,
}
use omkit_python.Prelude.Text.{Text, codes, text_eq, text_beq_iff}
use omkit_python.Prelude.Int.{ℤ, pos, negsuc, pos_part}
use omkit_python.Service.{Labels, valid_buckets, record_cost}

abbrev pub Counter : Type 0
Counter = List (Labels × ℕ)

abbrev pub total : Text → Counter → ℕ
total b [] = 0
total b ((l, n) ∷ c) = (if l.tenant_bucket == b then n else 0) + total b c

-- The calls of a process, and the units that the working ones emit for a bucket.
abbrev pub Call : Type 0
Call = Bool × Labels × ℤ

abbrev pub record_all : List Call → Counter → Counter
record_all [] c = c
record_all ((works, l, n) ∷ cs) c = record_all cs (record_cost works l n c)

abbrev pub emitted : Text → List Call → ℕ
emitted b [] = 0
emitted b ((works, l, n) ∷ cs) =
    (if works && l.tenant_bucket == b then pos_part n else 0) + emitted b cs

record_cost-total :
    (b : Text) (works : Bool) (l : Labels) (n : ℤ) (c : Counter)
    → elem b valid_buckets ≡ true
    → b ≢ codes "trial"
    → total b (record_cost works l n c)
      ≡ (if works && l.tenant_bucket == b then pos_part n else 0) + total b c
unfolding record_cost
record_cost-total b works l (negsuc n) c h k = ground arith
record_cost-total b works l (pos zero) c h k = ground arith
record_cost-total b works l (pos (suc n)) c h k =
    ground (arith, h, text_beq_iff (codes "trial") b, text_beq_iff l.tenant_bucket b)

-- For the buckets "system" and "paid", the counter grows by the units of the calls that name this
-- bucket, of those that are positive and that Prometheus took: an unknown name adds to neither.
pub record_all-total :
    (b : Text) (cs : List Call) (c : Counter)
    → elem b valid_buckets ≡ true
    → b ≢ codes "trial"
    → total b (record_all cs c) ≡ emitted b cs + total b c
record_all-total b [] c h k = omega arith
record_all-total b ((works, l, n) ∷ cs) c h k = omega (
  arith,
  record_all-total b cs (record_cost works l n c) h k,
  record_cost-total b works l n c h k,
)

-- ===== src/Quota.antt =====
-- omkit/quota.py: the limits of a tenant, what it has used, the two decisions and the time until the
-- next month. The tables are lists of rows; row level security shows a session the rows of its
-- tenant. A moment is a date in the proleptic Gregorian calendar, as in `datetime`.
pub mod Uploads
pub mod Calendar
pub mod Counting
mod Tests
use omkit_python.Prelude.{
  ℕ, zero, suc, ◌+◌, ◌-◌, ◌*◌, ◌/◌, ◌%◌, ◌≡◌, ◌≤◌, ◌<◌, Bool, true, false, not, ◌&&◌, ◌||◌, Option,
  none, some, List, [], ◌∷◌, if◌then◌else◌, eqb, leb, ltb, ◌==◌,
}
use omkit_python.Prelude.Text.{Text, text_eq}
use omkit_python.Prelude.Int.{ℤ, pos, negsuc, sub_ℕ, ◌+ℤ◌, ltb_ℤ}

pub data Resource : Type 0 where
  docs storage_bytes queries_per_month : Resource

pub record Limits : Type 0 where
  pub docs : ℤ
  pub storage_bytes : ℤ
  pub queries_per_month : ℤ

pub record Usage : Type 0 where
  pub docs : ℤ
  pub storage_bytes : ℤ
  pub queries_this_month : ℤ

pub record Decision : Type 0 where
  pub allowed : Bool
  pub resource : Option Resource
  pub limit : ℤ
  pub used : ℤ
  pub retry_after : ℤ

abbrev pub allow : Decision
allow = record { allowed = true; resource = none; limit = pos 0; used = pos 0; retry_after = pos 0 }

abbrev pub deny : Resource → (limit used retry_after : ℤ) → Decision
deny r limit used retry_after = record {
  allowed = false;
  resource = some r;
  limit = limit;
  used = used;
  retry_after = retry_after;
}

abbrev pub default_limits : Limits
default_limits = record {
  docs = pos 100;
  storage_bytes = pos (500 * 1024 * 1024);
  queries_per_month = pos 1000;
}

pub record FileRow : Type 0 where
  pub tenant_id : Text
  pub size_bytes : ℕ

-- A `Decimal` or the decimal that a float is stored as: units of a power of ten.
pub record Decimal : Type 0 where
  pub units : ℤ
  pub scale : ℕ

-- A row of `usage_log`; its time is a number of microseconds.
pub record LogRow : Type 0 where
  pub tenant_id : Text
  pub provider : Text
  pub model : Text
  pub input_tokens : ℤ
  pub output_tokens : ℤ
  pub cost_usd : Decimal
  pub created_at : ℕ

pub record Tables : Type 0 where
  pub document_files : List FileRow
  pub usage_log : List LogRow
  pub tenant_quotas : List (Text × Limits)

-- `load`
unfoldable pub load : Text → List (Text × Limits) → Limits
load tenant [] = default_limits
load tenant ((owner, l) ∷ rows) = let rest = load tenant rows in if owner == tenant then l else rest

unfoldable pub count_files : Text → List FileRow → ℕ
count_files tenant [] = 0
count_files tenant (f ∷ fs) = (if f.tenant_id == tenant then 1 else 0) + count_files tenant fs

unfoldable pub sum_sizes : Text → List FileRow → ℕ
sum_sizes tenant [] = 0
sum_sizes tenant (f ∷ fs) =
    (if f.tenant_id == tenant then f.size_bytes else 0) + sum_sizes tenant fs

-- `created_at >= date_trunc('month', now())`
unfoldable pub count_queries : Text → (month_start : ℕ) → List LogRow → ℕ
count_queries tenant month_start [] = 0
count_queries tenant month_start (q ∷ qs) =
    (if q.tenant_id == tenant && leb month_start q.created_at then 1 else 0)
    + count_queries tenant month_start qs

-- `get_usage`. A session that may not read `usage_log` counts no queries.
unfoldable pub get_usage : Text → (month_start : ℕ) → (may_read_log : Bool) → Tables → Usage
unfolding count_files sum_sizes count_queries
get_usage tenant month_start may_read_log t = record {
  docs = pos (count_files tenant t.document_files);
  storage_bytes = pos (sum_sizes tenant t.document_files);
  queries_this_month =
      pos (if may_read_log then count_queries tenant month_start t.usage_log else 0);
}

unfoldable pub check_upload : Limits → Usage → ℤ → Decision
check_upload lim usage incoming_bytes =
    if ltb_ℤ lim.docs (usage.docs +ℤ pos 1)
    then deny Resource.docs lim.docs usage.docs (pos 0)
    else if ltb_ℤ lim.storage_bytes (usage.storage_bytes +ℤ incoming_bytes)
    then deny Resource.storage_bytes lim.storage_bytes usage.storage_bytes (pos 0)
    else allow

-- `record_usage`, at the time of the insertion.
unfoldable pub record_usage :
    (now : ℕ) → (tenant provider model : Text) → (input output : ℤ) → Decimal → Tables → Tables
record_usage now tenant provider model input output cost t =
    let q : LogRow = record {
      tenant_id = tenant;
      provider = provider;
      model = model;
      input_tokens = input;
      output_tokens = output;
      cost_usd = cost;
      created_at = now;
    } in
    record t { usage_log = q ∷ t.usage_log }

-- A UTC time; `micros` counts from midnight.
pub record Moment : Type 0 where
  pub year : ℕ
  pub month : ℕ
  pub day : ℕ
  pub micros : ℕ

unfoldable pub is_leap : ℕ → Bool
is_leap y = eqb (y % 4) 0 && (not (eqb (y % 100) 0) || eqb (y % 400) 0)

unfoldable pub days_in_month : ℕ → ℕ → ℕ
unfolding is_leap
days_in_month y m =
    if eqb m 2
    then (if is_leap y then 29 else 28)
    else if eqb m 4 || eqb m 6 || eqb m 9 || eqb m 11
    then 30
    else 31

-- The days of the year before a month; months count from 1.
unfoldable pub days_before_month : ℕ → ℕ → ℕ
unfolding days_in_month
days_before_month y zero = 0
days_before_month y (suc zero) = 0
days_before_month y (suc (suc m)) = days_before_month y (suc m) + days_in_month y (suc m)

-- The days before a year, as `datetime` counts them.
unfoldable pub days_before_year : ℕ → ℕ
days_before_year year = let y = year - 1 in y * 365 + y / 4 - y / 100 + y / 400

abbrev pub day_micros : ℕ
day_micros = 24 * 3600 * 1000000

unfoldable pub timestamp : Moment → ℕ
unfolding days_before_year days_before_month
timestamp t =
    (days_before_year t.year + days_before_month t.year t.month + t.day) * day_micros + t.micros

unfoldable pub cap_at_32_days : ℤ → ℤ
cap_at_32_days s =
    if ltb_ℤ s (pos 0)
    then pos 60
    else if ltb_ℤ (pos (32 * 24 * 3600)) s
    then pos (32 * 24 * 3600)
    else s

unfoldable pub next_month : Moment → Moment
next_month now =
    if eqb now.month 12
    then record { year = now.year + 1; month = 1; day = 1; micros = 0 }
    else record { year = now.year; month = now.month + 1; day = 1; micros = 0 }

-- `int(d.total_seconds())`, which rounds towards zero.
unfoldable pub whole_seconds : ℤ → ℤ
whole_seconds (pos n) = pos (n / 1000000)
whole_seconds (negsuc n) = sub_ℕ 0 (suc n / 1000000)

unfoldable pub seconds_until_next_month : Moment → ℤ
unfolding cap_at_32_days whole_seconds timestamp next_month
seconds_until_next_month now =
    cap_at_32_days (whole_seconds (sub_ℕ (timestamp (next_month now)) (timestamp now)))

unfoldable pub check_query : Moment → Limits → Usage → Decision
unfolding seconds_until_next_month
check_query now lim usage =
    if ltb_ℤ lim.queries_per_month (usage.queries_this_month +ℤ pos 1)
    then deny Resource.queries_per_month lim.queries_per_month usage.queries_this_month
        (seconds_until_next_month now)
    else allow

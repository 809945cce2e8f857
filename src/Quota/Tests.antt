-- ===== src/Quota/Tests.antt =====
-- Witnesses and tests for the quotas.
use omkit_python.Prelude.{◌≤◌, ◌<◌, ◌≡◌, ◌↔◌, refl, true, false, [], ◌∷◌, ◌*◌, ◌+◌, ◌/◌, arith}
use omkit_python.Prelude.Text.{codes, text_eq, text_beq}
use omkit_python.Prelude.Int.{pos, ◌≤ℤ◌, ◌+ℤ◌}
use omkit_python.Quota.{
  Resource, Decimal, Usage, Tables, Moment, deny, default_limits, get_usage, check_upload,
  check_query, record_usage, days_in_month, days_before_month, seconds_until_next_month, day_micros,
}
use omkit_python.Quota.Uploads.{Within, upload_each, upload_each-Within, check_upload_cases}
use omkit_python.Quota.Calendar.{IsDate, remaining, seconds_until_next_month_lem}
use omkit_python.Quota.Counting.{get_usage-record_usage, check_query_cases}

abbrev used : Usage
used = record { docs = pos 98; storage_bytes = pos 1000; queries_this_month = pos 1000 }

runs : Unit {0}
unfolding upload_each check_upload ◌+ℤ◌ get_usage record_usage check_query days_in_month
    days_before_month text_beq
runs = tt

upload_each-three :
    upload_each default_limits used (pos 1 ∷ pos 600000000 ∷ pos 2 ∷ pos 3 ∷ [])
    ≡ record { docs = pos 100; storage_bytes = pos 1003; queries_this_month = pos 1000 }
unfolding runs
upload_each-three = refl

upload_each-Within_example :
    Within default_limits (upload_each default_limits used (pos 1 ∷ pos 600000000 ∷ pos 2 ∷ []))
upload_each-Within_example =
    upload_each-Within default_limits used (pos 1 ∷ pos 600000000 ∷ pos 2 ∷ [])
      (omega arith, omega arith)

check_upload-full :
    let u : Usage = record used { docs = pos 100 } in
    let fits =
      (u.docs +ℤ pos 1 ≤ℤ pos 100) × (u.storage_bytes +ℤ pos 5 ≤ℤ default_limits.storage_bytes) in
    (((check_upload default_limits u (pos 5)).allowed ≡ true) ↔ fits)
    × ((u.docs +ℤ pos 1 ≤ℤ pos 100)
        → (check_upload default_limits u (pos 5)).allowed ≡ false
        → check_upload default_limits u (pos 5)
          ≡ deny Resource.storage_bytes default_limits.storage_bytes u.storage_bytes (pos 0))
    × ((pos 100 ≤ℤ u.docs)
        → check_upload default_limits u (pos 5) ≡ deny Resource.docs (pos 100) u.docs (pos 0))
check_upload-full = check_upload_cases default_limits (record used { docs = pos 100 }) (pos 5)

-- 29 February 2024, half a second before midnight.
abbrev leap_day : Moment
leap_day = record { year = 2024; month = 2; day = 29; micros = 86399500000 }

leap_day-IsDate : IsDate leap_day
unfolding runs
leap_day-IsDate = record {
  from_one = omega arith;
  month_from = omega arith;
  month_to = omega arith;
  day_from = omega arith;
  day_to = omega arith;
  within_day = omega arith;
}

seconds_until_next_month_lem_example :
    (seconds_until_next_month leap_day ≡ pos (remaining leap_day / 1000000))
    × (remaining leap_day / 1000000 ≤ 31 * 24 * 3600)
    × ((remaining leap_day / 1000000 ≡ 0)
        ↔ (29 ≡ days_in_month 2024 2) × (day_micros < 86399500000 + 1000000))
seconds_until_next_month_lem_example = seconds_until_next_month_lem leap_day leap_day-IsDate

last_second :
    check_query leap_day default_limits used
    ≡ deny Resource.queries_per_month (pos 1000) (pos 1000) (pos 0)
unfolding runs
last_second = refl

check_query_cases-tested :
    (((check_query leap_day default_limits used).allowed ≡ true)
      ↔ (used.queries_this_month +ℤ pos 1 ≤ℤ default_limits.queries_per_month))
    × ((check_query leap_day default_limits used).allowed ≡ false
        → check_query leap_day default_limits used
          ≡ deny Resource.queries_per_month default_limits.queries_per_month used.queries_this_month
              (pos (remaining leap_day / 1000000)))
check_query_cases-tested = check_query_cases leap_day default_limits used leap_day-IsDate

abbrev free : Decimal
free = record { units = pos 0; scale = 0 }

abbrev no_rows : Tables
no_rows = record { document_files = []; usage_log = []; tenant_quotas = [] }

get_usage-one_query :
    get_usage
      (codes "a")
      10
      true
      (record_usage 12 (codes "a") (codes "p") (codes "m") (pos 3) (pos 4) free no_rows)
    ≡ record { docs = pos 0; storage_bytes = pos 0; queries_this_month = pos 1 }
unfolding runs
get_usage-one_query =
    get_usage-record_usage 12 10 (codes "a") (codes "a") (codes "p") (codes "m") (pos 3) (pos 4)
      free no_rows (omega arith)

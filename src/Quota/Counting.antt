-- ===== src/Quota/Counting.antt =====
-- omkit/quota.py: a usage row counts against the monthly queries of its tenant.
use omkit_python.Prelude.{ℕ, ◌+◌, ◌/◌, ◌≤◌, ◌≡◌, true, false, if◌then◌else◌, arith, ◌==◌, ◌↔◌}
use omkit_python.Prelude.Text.{Text, text_eq}
use omkit_python.Prelude.Int.{ℤ, pos, ◌+ℤ◌, ◌≤ℤ◌}
use omkit_python.Quota.Calendar.{IsDate, remaining, seconds_until_next_month_lem}
use omkit_python.Quota.{
  Resource, Decimal, deny, Limits, Usage, Tables, Moment, get_usage, record_usage, count_queries,
  check_query,
}

abbrev pub queries : Text → ℕ → Tables → ℕ
queries tenant month_start t = count_queries tenant month_start t.usage_log

-- A row that `record_usage` writes in the current month adds one query to its own tenant and none
-- to any other, as far as `get_usage` with access to the log can see, and it changes neither the
-- documents nor the bytes of anyone.
pub get_usage-record_usage :
    (now month_start : ℕ) (tenant other provider model : Text) (input output : ℤ) (cost : Decimal)
    (t : Tables)
    → month_start ≤ now
    → get_usage other month_start true (record_usage now tenant provider model input output cost t)
      ≡ record (get_usage other month_start true t) {
        queries_this_month = pos ((if tenant == other then 1 else 0) + queries other month_start t);
      }
unfolding get_usage record_usage
get_usage-record_usage now month_start tenant other provider model input output cost t h =
    ground arith

-- At a date of the calendar, a query is allowed exactly if it still fits into the month, and a
-- decision against it says to retry after the whole seconds that are left of the month. In the last
-- second this is 0, which stands for "no retry will help".
pub check_query_cases :
    (now : Moment) (lim : Limits) (u : Usage)
    → IsDate now
    → (((check_query now lim u).allowed ≡ true)
        ↔ (u.queries_this_month +ℤ pos 1 ≤ℤ lim.queries_per_month))
      × ((check_query now lim u).allowed ≡ false
          → check_query now lim u
            ≡ deny Resource.queries_per_month lim.queries_per_month u.queries_this_month
                (pos (remaining now / 1000000)))
unfolding check_query
check_query_cases now lim u v = ground (arith, (seconds_until_next_month_lem now v).0)

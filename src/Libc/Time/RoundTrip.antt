-- ===== src/Libc/Time/RoundTrip.antt =====
-- user/libc/src/time.c: `gmtime` and `mktime` together, and the ranges of the fields.
use shit_os.Prelude.{
  ℕ, zero, suc, List, [], ◌∷◌, get_or, ◌+◌, ◌-◌, ◌*◌, ◌/◌, ◌%◌, ◌^◌, ◌≤◌, ◌<◌, ◌≡◌, ◌∙◌, ap, some,
  Bool, false, ltb, arith, true,
}
use shit_os.Prelude.Int.{pos, ◌+ℤ◌, ◌-ℤ◌, ◌*ℤ◌, pos_part, ltb_ℤ}
use shit_os.Libc.Time.{
  is_leap_year, days_in_month, month_lengths, find_year, find_month, sum_years, sum_months,
  broken_down, gmtime, seconds_since_epoch, mktime,
}
use shit_os.Libc.Time.Years.{
  SplitsYears, SplitsMonths, find_year_lem, find_month_lem, sum_years_acc, sum_months_acc,
  sum_months-year_length, year_length_bounds,
}

from_zero : (f : ℕ → ℕ) (n : ℕ) → f (n - 0) ≡ f n
from_zero f n = ap f (omega arith)

sum_years_split : (n y a : ℕ) → sum_years n y a ≡ a + sum_years n y 0
sum_years_split n y a = ap (sum_years n y) (omega arith) ∙ sum_years_acc n y a 0

sum_months_split : (leap : Bool) (n a : ℕ) → sum_months leap n 0 a ≡ a + sum_months leap n 0 0
sum_months_split leap n a = ap (sum_months leap n 0) (omega arith) ∙ sum_months_acc leap n 0 a 0

assemble :
    (whole mday hour min sec : ℕ)
    → 86400 *ℤ (pos whole +ℤ (pos (mday + 1) -ℤ pos 1))
        +ℤ 3600 *ℤ pos hour
        +ℤ 60 *ℤ pos min
        +ℤ pos sec
      ≡ pos (86400 * (whole + mday) + 3600 * hour + 60 * min + sec)
unfolding ◌+ℤ◌ ◌-ℤ◌ ◌*ℤ◌
assemble whole mday hour min sec = ground arith

abbrev AllLe : ℕ → List ℕ → Type 0
AllLe b [] = Unit
AllLe b (x ∷ xs) = (x ≤ b) × AllLe b xs

get_or_le : (b : ℕ) (xs : List ℕ) (i : ℕ) → AllLe b xs → get_or xs i 0 ≤ b
get_or_le b [] i h = omega arith
get_or_le b (x ∷ xs) zero h = h.0
get_or_le b (x ∷ xs) (suc i) h = get_or_le b xs i h.1

days_in_month_le : (leap : Bool) (m : ℕ) → days_in_month leap m ≤ 31
unfolding days_in_month
days_in_month_le true m = get_or_le 31 (month_lengths true) m (omega arith)
days_in_month_le false m = get_or_le 31 (month_lengths false) m (omega arith)

module _ (seconds : ℕ) where
  abbrev days : ℕ
  days = seconds / 86400

  abbrev year_and_day : ℕ × ℕ
  year_and_day = find_year (days / 365 + 1) 1970 days

  abbrev year : ℕ
  year = year_and_day.0

  abbrev month_and_day : ℕ × ℕ
  month_and_day = find_month (is_leap_year year) 12 0 year_and_day.1

  pub year_split : SplitsYears 1970 days year_and_day
  year_split = find_year_lem (days / 365 + 1) 1970 days (omega arith)

  pub month_split : SplitsMonths (is_leap_year year) 12 0 year_and_day.1 month_and_day
  month_split =
      find_month_lem (is_leap_year year) 12 0 year_and_day.1
        (omega (arith, year_split.1, sum_months-year_length year))

  -- the days that `mktime` counts
  days_again :
      sum_months (is_leap_year year) month_and_day.0 0 (sum_years (year - 1970) 1970 0)
        + month_and_day.1
      ≡ days
  days_again = omega (
    arith,
    sum_years_split (year - 1970) 1970 year_and_day.1,
    year_split.2,
    sum_months_split (is_leap_year year) month_and_day.0 (sum_years (year - 1970) 1970 0),
    sum_months_split (is_leap_year year) month_and_day.0 month_and_day.1,
    from_zero (λ n. sum_months (is_leap_year year) n 0 month_and_day.1) month_and_day.0,
    month_split.3,
  )

  -- no field of `gmtime` is negative, and none is out of its range
  pub year_of : pos (year - 1900) +ℤ pos 1900 ≡ pos year
  unfolding ◌+ℤ◌
  year_of = ground (arith, year_split.0)

  year_back : (broken_down seconds).year +ℤ pos 1900 ≡ pos year
  unfolding broken_down
  year_back = year_of

  not_before : ltb_ℤ (pos year) (pos 1970) ≡ false
  not_before = ground (arith, year_split.0)

  counted :
      seconds_since_epoch (broken_down seconds) year
      ≡ 86400
          *ℤ (pos
                (sum_months (is_leap_year year) month_and_day.0 0 (sum_years (year - 1970) 1970 0))
              +ℤ (pos (month_and_day.1 + 1) -ℤ pos 1))
        +ℤ 3600 *ℤ pos (seconds % 86400 / 3600)
        +ℤ 60 *ℤ pos (seconds % 86400 % 3600 / 60)
        +ℤ pos (seconds % 86400 % 60)
  unfolding seconds_since_epoch broken_down
  counted = let below : ltb month_and_day.0 12 ≡ true = ground (arith, month_split.1) in rw below

  -- `mktime` counts the seconds that `gmtime` broke down.
  pub seconds_again : seconds_since_epoch (broken_down seconds) year ≡ pos seconds
  seconds_again =
      counted
      ∙ assemble (sum_months (is_leap_year year) month_and_day.0 0 (sum_years (year - 1970) 1970 0))
          month_and_day.1 (seconds % 86400 / 3600) (seconds % 86400 % 3600 / 60)
          (seconds % 86400 % 60)
      ∙ ap pos (omega (arith, days_again))

-- Every field is in the range that C gives it, and up to 2 ^ 55 seconds no `int` overflows.
pub gmtime_ranges :
    (seconds : ℕ)
    → seconds < 2 ^ 55
    → let t = broken_down seconds in
      (pos_part t.sec < 60)
      × (pos_part t.min < 60)
      × (pos_part t.hour < 24)
      × (1 ≤ pos_part t.mday)
      × (pos_part t.mday ≤ 31)
      × (pos_part t.mon < 12)
      × (70 ≤ pos_part t.year)
      × (pos_part t.year < 2 ^ 31)
      × (pos_part t.wday < 7)
      × (pos_part t.yday < 366)
unfolding broken_down
gmtime_ranges seconds h = (
  omega arith,
  omega arith,
  omega arith,
  omega arith,
  omega (arith, (month_split seconds).2, days_in_month_le _ (month_and_day seconds).0),
  omega (arith, (month_split seconds).1),
  omega (arith, (year_split seconds).0),
  omega (arith, (year_split seconds).3),
  omega arith,
  omega (arith, (year_split seconds).1, year_length_bounds (year seconds)),
)

year_in_range :
    (seconds : ℕ) → seconds < 2 ^ 55 → pos_part (broken_down seconds).year + 1900 < 2 ^ 31
unfolding broken_down
year_in_range seconds few = let y = year_split seconds in omega (arith, y.0, y.3)

-- For fewer than 2^55 seconds since 1970, whose years an `int` holds: `gmtime` gives a `struct tm` with a year
-- below 2^31, from which `mktime` gets the number of seconds back, and which `mktime` leaves as it is.
pub mktime-gmtime :
    (seconds : ℕ)
    → seconds < 2 ^ 55
    → (pos_part (gmtime (some (pos seconds))).year + 1900 < 2 ^ 31)
      × (mktime (some (gmtime (some (pos seconds))))
          ≡ (pos seconds, some (gmtime (some (pos seconds)))))
unfolding mktime gmtime
mktime-gmtime seconds few =
    (year_in_range seconds few, rw (year_back seconds, not_before seconds, seconds_again seconds))

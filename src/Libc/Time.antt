-- ===== src/Libc/Time.antt =====
-- user/libc/src/time.c: `gmtime` and `mktime`. Fields of `struct tm` are signed; the days and years
-- inside are not negative, as `gmtime` starts from no negative number of seconds. The year of
-- `find_year` and `tm_year` are `int` in the source, and have no bound here: below 2^55 seconds they fit in
-- one, and from about 2^56 the source overflows.
pub mod Years
pub mod RoundTrip
use shit_os.Prelude.{
  ℕ, zero, suc, ◌+◌, ◌-◌, ◌*◌, ◌/◌, ◌%◌, Bool, not, ◌&&◌, ◌||◌, Option, none, some, List, [], ◌∷◌,
  ltb, leb, ◌==◌, if◌then◌else◌, get_or,
}
use shit_os.Prelude.Int.{ℤ, pos, negsuc, pos_part, ◌+ℤ◌, ◌-ℤ◌, ◌*ℤ◌, ltb_ℤ}

unfoldable pub is_leap_year : ℕ → Bool
is_leap_year y = (y % 4 == 0) && not (y % 100 == 0) || (y % 400 == 0)

unfoldable pub year_length : ℕ → ℕ
unfolding is_leap_year
year_length y = if is_leap_year y then 366 else 365

-- DAYS_IN_MONTH[leap]
abbrev pub month_lengths : Bool → List ℕ
month_lengths leap =
    31 ∷ (if leap then 29 else 28) ∷ 31 ∷ 30 ∷ 31 ∷ 30 ∷ 31 ∷ 31 ∷ 30 ∷ 31 ∷ 30 ∷ 31 ∷ []

-- DAYS_IN_MONTH[leap][month], for a month below 12
unfoldable pub days_in_month : Bool → ℕ → ℕ
days_in_month leap m = get_or (month_lengths leap) m 0

-- `struct tm` without its constant fields: no offset, no saving time, the zone UTC
pub record Tm : Type 0 where
  pub sec : ℤ
  pub min : ℤ
  pub hour : ℤ
  pub mday : ℤ
  pub mon : ℤ
  pub year : ℤ
  pub wday : ℤ
  pub yday : ℤ

-- `for (;;)` over the years: the year and what is left of the days. `Years` shows the fuel enough.
unfoldable pub find_year : ℕ → ℕ → ℕ → ℕ × ℕ
find_year zero year days = (year, days)
find_year (suc fuel) year days =
    let later = find_year fuel (year + 1) (days - year_length year) in
    if ltb days (year_length year) then (year, days) else later

-- the `while` over the months
unfoldable pub find_month : Bool → ℕ → ℕ → ℕ → ℕ × ℕ
find_month leap zero month days = (month, days)
find_month leap (suc fuel) month days =
    let later = find_month leap fuel (month + 1) (days - days_in_month leap month) in
    if leb (days_in_month leap month) days then later else (month, days)

-- `gmtime` from the number of seconds on
unfoldable pub broken_down : ℕ → Tm
unfolding find_year find_month
broken_down seconds =
    let days = seconds / 86400 in
    let remainder = seconds % 86400 in
    let (year, yday) = find_year (days / 365 + 1) 1970 days in
    let (month, mday) = find_month (is_leap_year year) 12 0 yday in
    record {
      sec = pos (remainder % 60);
      min = pos (remainder % 3600 / 60);
      hour = pos (remainder / 3600);
      mday = pos (mday + 1);
      mon = pos month;
      year = pos (year - 1900);
      wday = pos ((days + 4) % 7);
      yday = pos yday;
    }

-- A null pointer and a time before 1970 both read as 0.
unfoldable pub gmtime : Option ℤ → Tm
gmtime none = broken_down 0
gmtime (some when) = broken_down (pos_part when)

-- the first loop of `mktime`, with `count` years to go
unfoldable pub sum_years : ℕ → ℕ → ℕ → ℕ
sum_years zero y days = days
sum_years (suc count) y days = sum_years count (y + 1) (days + year_length y)

-- the second loop, with `count` months to go
unfoldable pub sum_months : Bool → ℕ → ℕ → ℕ → ℕ
sum_months leap zero m days = days
sum_months leap (suc count) m days = sum_months leap count (m + 1) (days + days_in_month leap m)

-- The year as a number, once it is known not to be before 1970.
unfoldable pub seconds_since_epoch : Tm → ℕ → ℤ
unfolding sum_years sum_months
seconds_since_epoch t year =
    let months = pos_part t.mon in
    let whole = sum_years (year - 1970) 1970 0 in
    let days =
      pos (sum_months (is_leap_year year) (if ltb months 12 then months else 12) 0 whole)
      +ℤ (t.mday -ℤ pos 1) in
    86400 *ℤ days +ℤ 3600 *ℤ t.hour +ℤ 60 *ℤ t.min +ℤ t.sec

-- The result and `*broken_down` afterwards; a null pointer and a year before 1970 give -1.
unfoldable pub mktime : Option Tm → ℤ × Option Tm
mktime none = (negsuc 0, none)
mktime (some t) =
    let year = t.year +ℤ pos 1900 in
    let result = seconds_since_epoch t (pos_part year) in
    let rebuilt = gmtime (some result) in
    if ltb_ℤ year (pos 1970)
    then (negsuc 0, some t)
    else (result, some (record t { wday = rebuilt.wday; yday = rebuilt.yday }))

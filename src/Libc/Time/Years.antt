-- ===== src/Libc/Time/Years.antt =====
-- user/libc/src/time.c: the loops of `gmtime` against those of `mktime`.
use shit_os.Prelude.{
  ℕ, zero, suc, ◌+◌, ◌-◌, ◌*◌, ◌/◌, ◌≤◌, ◌<◌, ◌≡◌, ◌∙◌, refl, Bool, false, ltb, leb, Bool-cases,
  leb→le, ap, inl, inr, arith,
}
use shit_os.Libc.Time.{
  is_leap_year, year_length, days_in_month, find_year, find_month, sum_years, sum_months,
}

leb_of_not_ltb : (a b : ℕ) → ltb a b ≡ false → b ≤ a
leb_of_not_ltb a b h = ground arith

pub year_length_bounds : (y : ℕ) → (365 ≤ year_length y) × (year_length y ≤ 366)
unfolding year_length
year_length_bounds y = ground arith

-- An accumulator is added in the end.
pub sum_years_acc : (n y a b : ℕ) → sum_years n y (a + b) ≡ a + sum_years n y b
unfolding sum_years
sum_years_acc zero y a b = refl
sum_years_acc (suc n) y a b =
    let regroup : a + b + year_length y ≡ a + (b + year_length y) = omega arith in
    rw regroup (sum_years_acc n (y + 1) a (b + year_length y))

sum_years_step :
    (y year d : ℕ)
    → y + 1 ≤ year
    → sum_years (year - y) y d ≡ year_length y + sum_years (year - (y + 1)) (y + 1) d
unfolding sum_years
sum_years_step y year d h =
    let one_more : year - y ≡ suc (year - (y + 1)) = omega arith in
    let swap : d + year_length y ≡ year_length y + d = omega arith in
    rw one_more (
      ap (sum_years (year - (y + 1)) (y + 1)) swap
      ∙ sum_years_acc (year - (y + 1)) (y + 1) (year_length y) d)

sum_years_none : (y d : ℕ) → sum_years (y - y) y d ≡ d
unfolding sum_years
sum_years_none y d = let none_left : y - y ≡ 0 = omega arith in rw none_left

-- Days from the start of year `y` on, as a year and a day of it.
abbrev pub SplitsYears : ℕ → ℕ → ℕ × ℕ → Type 0
SplitsYears y days (year, yday) =
    (y ≤ year)
    × (yday < year_length year)
    × (sum_years (year - y) y yday ≡ days)
    × (year ≤ y + days / 365)

next_year :
    (y days : ℕ) (r : ℕ × ℕ)
    → year_length y ≤ days
    → SplitsYears (y + 1) (days - year_length y) r
    → SplitsYears y days r
next_year y days (year, yday) enough ih = (
  omega arith,
  ih.1,
  omega (arith, sum_years_step y year yday ih.0),
  omega (arith, year_length_bounds y),
)

-- Fuel above a 365th of the days is enough.
pub find_year_lem :
    (fuel y days : ℕ) → days < fuel * 365 → SplitsYears y days (find_year fuel y days)
unfolding find_year
find_year_lem zero y days h = absurd (omega arith)
find_year_lem (suc fuel) y days h = elim (Bool-cases (ltb days (year_length y))) [
  | inl here ↦ rw here (omega arith, ground arith, sum_years_none y days, omega arith)
  | inr later ↦ rw later (
      next_year y days (find_year fuel (y + 1) (days - year_length y)) (ground arith) (
        find_year_lem fuel (y + 1) (days - year_length y)
          (omega (arith, year_length_bounds y, leb_of_not_ltb days (year_length y) later))))
]

pub sum_months_acc :
    (leap : Bool) (n m a b : ℕ) → sum_months leap n m (a + b) ≡ a + sum_months leap n m b
unfolding sum_months
sum_months_acc leap zero m a b = refl
sum_months_acc leap (suc n) m a b =
    let regroup : a + b + days_in_month leap m ≡ a + (b + days_in_month leap m) = omega arith in
    rw regroup (sum_months_acc leap n (m + 1) a (b + days_in_month leap m))

sum_months_step :
    (leap : Bool) (m month d : ℕ)
    → m + 1 ≤ month
    → sum_months leap (month - m) m d
      ≡ days_in_month leap m + sum_months leap (month - (m + 1)) (m + 1) d
unfolding sum_months
sum_months_step leap m month d h =
    let one_more : month - m ≡ suc (month - (m + 1)) = omega arith in
    let swap : d + days_in_month leap m ≡ days_in_month leap m + d = omega arith in
    rw one_more (
      ap (sum_months leap (month - (m + 1)) (m + 1)) swap
      ∙ sum_months_acc leap (month - (m + 1)) (m + 1) (days_in_month leap m) d)

sum_months_none : (leap : Bool) (m d : ℕ) → sum_months leap (m - m) m d ≡ d
unfolding sum_months
sum_months_none leap m d = let none_left : m - m ≡ 0 = omega arith in rw none_left

sum_months-suc :
    (leap : Bool) (n m : ℕ)
    → sum_months leap (suc n) m 0 ≡ days_in_month leap m + sum_months leap n (m + 1) 0
unfolding sum_months
sum_months-suc leap n m =
    let swap : 0 + days_in_month leap m ≡ days_in_month leap m + 0 = omega arith in
    rw swap (sum_months_acc leap n (m + 1) (days_in_month leap m) 0)

-- The same of months: days that the months from `m` on can hold.
abbrev pub SplitsMonths : Bool → ℕ → ℕ → ℕ → ℕ × ℕ → Type 0
SplitsMonths leap fuel m days (month, mday) =
    (m ≤ month)
    × (month < m + fuel)
    × (mday < days_in_month leap month)
    × (sum_months leap (month - m) m mday ≡ days)

next_month :
    (leap : Bool) (fuel m days : ℕ) (r : ℕ × ℕ)
    → days_in_month leap m ≤ days
    → SplitsMonths leap fuel (m + 1) (days - days_in_month leap m) r
    → SplitsMonths leap (suc fuel) m days r
next_month leap fuel m days (month, mday) enough ih =
    (omega arith, omega arith, ih.2, omega (arith, sum_months_step leap m month mday ih.0))

pub find_month_lem :
    (leap : Bool) (fuel m days : ℕ)
    → days < sum_months leap fuel m 0
    → SplitsMonths leap fuel m days (find_month leap fuel m days)
unfolding find_month
find_month_lem leap zero m days h = unfold sum_months in absurd (omega (arith, h))
find_month_lem leap (suc fuel) m days h = elim (Bool-cases (leb (days_in_month leap m) days)) [
  | inr here ↦ rw here (omega arith, omega arith, ground arith, sum_months_none leap m days)
  | inl later ↦ rw later (
      next_month leap fuel m days (find_month leap fuel (m + 1) (days - days_in_month leap m))
        (leb→le _ _ later)
        (find_month_lem leap fuel (m + 1) (days - days_in_month leap m)
          (omega (arith, sum_months-suc leap fuel m, leb→le _ _ later))))
]

-- The months make up the year.
pub sum_months-year_length : (y : ℕ) → sum_months (is_leap_year y) 12 0 0 ≡ year_length y
unfolding sum_months days_in_month year_length
sum_months-year_length y = elim (Bool-cases (is_leap_year y)) [
  | inl e ↦ ground arith
  | inr e ↦ ground arith
]

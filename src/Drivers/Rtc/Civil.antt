-- ===== src/Drivers/Rtc/Civil.antt =====
-- `days_from_civil` of modules/rtc/rtc.c, against the loops of `mktime` of user/libc/src/time.c.
use shit_os.Prelude.{
  ℕ, zero, suc, ◌+◌, ◌-◌, ◌*◌, ◌/◌, ◌%◌, ◌^◌, ◌≤◌, ◌<◌, ◌≡◌, ◌∙◌, refl, ap, Bool, true, false, ltb,
  leb, arith, if◌then◌else◌, ◌==◌, every_below, every_below-at,
}
use shit_os.Prelude.Int.{pos, ◌-ℤ◌, ltb_ℤ, pos-ℤ, pos+ℤ, pos*ℤ}
use shit_os.Libc.Time.{is_leap_year, year_length, days_in_month, sum_years, sum_months}
use shit_os.Libc.Time.Years.{sum_months_acc}
use shit_os.Drivers.Rtc.Cmos.{days_from_march, days_from_civil}

-- the days before 1 January of a year, counted from the start of year 0 of the proleptic calendar
abbrev before_year : ℕ → ℕ
before_year y = 365 * y + (y - 1) / 4 - (y - 1) / 100 + (y - 1) / 400

before_year-suc : (y : ℕ) → 1 ≤ y → before_year (suc y) ≡ before_year y + year_length y
unfolding year_length
before_year-suc y h = ground arith

sum_years_last : (n y d : ℕ) → sum_years (suc n) y d ≡ sum_years n y d + year_length (y + n)
unfolding sum_years
sum_years_last zero y d = ap (λ k. d + year_length k) (omega arith)
sum_years_last (suc n) y d =
    sum_years_last n (y + 1) (d + year_length y)
    ∙ ap (λ k. sum_years n (y + 1) (d + year_length y) + year_length k) (omega arith)

sum_years_closed : (n : ℕ) → sum_years n 1970 0 + before_year 1970 ≡ before_year (1970 + n)
sum_years_closed zero = unfold sum_years in refl
sum_years_closed (suc n) =
    let next_year : 1970 + suc n ≡ suc (1970 + n) = omega arith in
    rw next_year (
      omega (
        arith,
        sum_years_last n 1970 0,
        sum_years_closed n,
        before_year-suc (1970 + n) (omega arith),
      ))

not_negative : (y : ℕ) → ltb_ℤ (pos y) (pos 0) ≡ false
not_negative y = ground arith

days_from_march_lem :
    (y day_of_year : ℕ)
    → days_from_march (pos y) day_of_year
      ≡ pos (365 * y + y / 4 - y / 100 + y / 400 + day_of_year) -ℤ pos 719468
unfolding days_from_march
days_from_march_lem y day_of_year =
    rw
      (
        not_negative y,
        pos*ℤ 400 (y / 400),
        pos-ℤ y (400 * (y / 400)) (omega arith),
        pos*ℤ 146097 (y / 400),
        pos+ℤ,
      )
      (ap (λ n. pos n -ℤ pos 719468) (omega arith))

-- the driver's straight line, for a month that counts from 0 as in `struct tm`
line : ℕ → ℕ
line k = (153 * ((k + 1 + (if ltb 2 (k + 1) then 2 ^ 32 - 3 else 9)) % 2 ^ 32) + 2) / 5

-- It is the month table of the library, counted from 1 March.
abbrev on_line : Bool → ℕ → Bool
on_line leap k =
    if ltb k 2
    then line k == 306 + sum_months leap k 0 0
    else line k + 59 + (if leap then 1 else 0) == sum_months leap k 0 0

on_line_table : (leap : Bool) → every_below (on_line leap) 12 ≡ true
unfolding every_below sum_months days_in_month line
on_line_table true = refl
on_line_table false = refl

line_lem : (leap : Bool) (k : ℕ) → k < 12 → on_line leap k ≡ true
line_lem leap k h = every_below-at (on_line leap) k 12 h (on_line_table leap)

-- With the leap day at the end of the driver's year, its count is the library's.
march_lem :
    (y k d : ℕ)
    → 1 ≤ y
    → k < 12
    → 1 ≤ d
    → let march = y - (if leb (k + 1) 2 then 1 else 0) in
      365 * march + march / 4 - march / 100 + march / 400 + (line k + d - 1) + 59
      ≡ before_year y + (sum_months (is_leap_year y) k 0 0 + (d - 1))
unfolding is_leap_year
march_lem y k d hy hk hd = ground (arith, line_lem (is_leap_year y) k hk)

abbrev march_days : ℕ → ℕ → ℕ → ℕ
march_days y k d =
    let march = y - (if leb (k + 1) 2 then 1 else 0) in
    365 * march + march / 4 - march / 100 + march / 400 + (line k + d - 1)

march_days_lem :
    (y k d : ℕ)
    → 1970 ≤ y
    → k < 12
    → 1 ≤ d
    → march_days y k d
      ≡ sum_months (is_leap_year y) k 0 (sum_years (y - 1970) 1970 0) + (d - 1) + 719468
march_days_lem y k d hy hk hd =
    omega (arith, march_lem y k d (omega arith) hk hd, from_1970, months)
  where
    from_1970 : sum_years (y - 1970) 1970 0 + before_year 1970 ≡ before_year y
    from_1970 = sum_years_closed (y - 1970) ∙ ap before_year (omega arith)

    months :
        sum_months (is_leap_year y) k 0 (sum_years (y - 1970) 1970 0)
        ≡ sum_years (y - 1970) 1970 0 + sum_months (is_leap_year y) k 0 0
    months =
        ap (sum_months (is_leap_year y) k 0) (omega arith)
        ∙ sum_months_acc (is_leap_year y) k 0 (sum_years (y - 1970) 1970 0) 0

-- From 1970 on, the driver's formula gives the days that `mktime` counts year by year and month by
-- month, for each of the twelve months `k` and any day of it.
pub days_from_civil_lem :
    (y k d : ℕ)
    → 1970 ≤ y
    → k < 12
    → 1 ≤ d
    → days_from_civil (pos y) (k + 1) d
      ≡ pos (sum_months (is_leap_year y) k 0 (sum_years (y - 1970) 1970 0) + (d - 1))
unfolding days_from_civil line
days_from_civil_lem y k d hy hk hd =
    ap (λ z. days_from_march z (line k + d - 1))
      (pos-ℤ y (if leb (k + 1) 2 then 1 else 0) (ground arith))
    ∙ days_from_march_lem (y - (if leb (k + 1) 2 then 1 else 0)) (line k + d - 1)
    ∙ ap (λ n. pos n -ℤ pos 719468) (march_days_lem y k d hy hk hd)
    ∙ pos-ℤ (sum_months (is_leap_year y) k 0 (sum_years (y - 1970) 1970 0) + (d - 1) + 719468)
        719468 (omega arith)
    ∙ ap pos (omega arith)

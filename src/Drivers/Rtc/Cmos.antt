-- ===== src/Drivers/Rtc/Cmos.antt =====
-- modules/rtc/rtc.c: reading the chip and turning its registers into seconds since 1970.
use shit_os.Prelude.{
  ℕ, zero, suc, ◌+◌, ◌-◌, ◌*◌, ◌/◌, ◌%◌, ◌^◌, Bool, true, not, ◌&&◌, ◌||◌, Option, none, some, ltb,
  leb, ◌==◌, bit, if◌then◌else◌,
}
use shit_os.Prelude.Int.{ℤ, pos, negsuc, pos_part, ◌+ℤ◌, ◌-ℤ◌, ◌*ℤ◌, ◌/ℤ◌, ltb_ℤ}
use shit_os.Drivers.Kernel.{KernelApi}

-- `struct RawTime`
pub record RawTime : Type 0 where
  pub second : ℕ
  pub minute : ℕ
  pub hour : ℕ
  pub day : ℕ
  pub month : ℕ
  pub year : ℕ

unfoldable pub from_bcd : ℕ → ℕ
from_bcd value = (value % 16 + value / 16 * 10) % 2 ^ 8

unfoldable pub same_time : RawTime → RawTime → Bool
same_time a b =
    (a.second == b.second)
    && ((a.minute == b.minute)
        && ((a.hour == b.hour)
            && ((a.day == b.day) && ((a.month == b.month) && (a.year == b.year)))))

-- `days_from_civil` for a year that starts in March. The `int64_t` sums do not come near 2 ^ 63.
unfoldable pub days_from_march : ℤ → ℕ → ℤ
unfolding ◌/ℤ◌
days_from_march year day_of_year =
    let era = (if ltb_ℤ year (pos 0) then year -ℤ pos 399 else year) /ℤ 400 in
    let year_of_era = pos_part (year -ℤ 400 *ℤ era) in
    let day_of_era = year_of_era * 365 + year_of_era / 4 - year_of_era / 100 + day_of_year in
    146097 *ℤ era +ℤ pos day_of_era -ℤ pos 719468

-- `month` and `day` are `unsigned`: `month + -3` wraps.
unfoldable pub days_from_civil : ℤ → ℕ → ℕ → ℤ
unfolding days_from_march
days_from_civil year month day =
    let shifted = (month + (if ltb 2 month then 2 ^ 32 - 3 else 9)) % 2 ^ 32 in
    days_from_march (year -ℤ pos (if leb month 2 then 1 else 0)) ((153 * shifted + 2) / 5 + day - 1)

-- `rtc_read_epoch` from the status byte on, without the log line; -1 is a reading that makes no sense
unfoldable pub epoch_of : RawTime → ℕ → ℤ
unfolding from_bcd
epoch_of raw status_b =
    let decode = λ (v : ℕ). if bit 2 status_b then v else from_bcd v in
    let twenty_four_hour = bit 1 status_b in
    let pm = not twenty_four_hour && bit 7 raw.hour in
    let sec = decode raw.second in
    let min = decode raw.minute in
    let hour_read = decode (raw.hour % 128) in
    let day = decode raw.day in
    let month = decode raw.month in
    let year = decode raw.year in
    let hour_12 = (if hour_read == 12 then 0 else hour_read) + (if pm then 12 else 0) in
    let hour = if twenty_four_hour then hour_read else hour_12 in
    let full_year = if leb 70 year then 1900 + year else 2000 + year in
    if ltb month 1
      || (ltb 12 month
          || (ltb day 1 || (ltb 31 day || (ltb 23 hour || (ltb 59 min || ltb 60 sec)))))
    then negsuc 0
    else 86400 *ℤ days_from_civil (pos full_year) month day +ℤ pos (hour * 3600 + min * 60 + sec)

module _ (kernel : KernelApi) where
  open kernel use {World, inb, outb}

  unfoldable pub cmos_read : ℕ → World → ℕ × World
  cmos_read reg w = inb 0x71 (outb 0x70 (reg % 128) w)

  unfoldable pub update_in_progress : World → Bool × World
  unfolding cmos_read
  update_in_progress w = let (status, w') = cmos_read 0x0A w in (bit 7 status, w')

  -- the loop of `read_raw`, which gives up when it has spun `left` times and once more
  unfoldable pub wait_update : ℕ → World → Bool × World
  wait_update zero w = let (busy, w') = update_in_progress w in (not busy, w')
  wait_update (suc left) w =
      let (busy, w') = update_in_progress w in
      let later = wait_update left w' in if busy then later else (true, w')

  -- UPDATE_TIMEOUT_ITERATIONS
  timeout : ℕ
  timeout = 1000000

  unfoldable pub read_registers : World → RawTime × World
  read_registers w =
      let (second, w1) = cmos_read 0x00 w in
      let (minute, w2) = cmos_read 0x02 w1 in
      let (hour, w3) = cmos_read 0x04 w2 in
      let (day, w4) = cmos_read 0x07 w3 in
      let (month, w5) = cmos_read 0x08 w4 in
      let (year, w6) = cmos_read 0x09 w5 in
      (
        record {
          second = second;
          minute = minute;
          hour = hour;
          day = day;
          month = month;
          year = year;
        },
        w6,
      )

  unfoldable pub read_raw : World → Option RawTime × World
  unfolding timeout
  read_raw w =
      let (ready, w1) = wait_update timeout w in
      let (raw, w2) = read_registers w1 in if ready then (some raw, w2) else (none, w1)

  -- the loop over the attempts: the second reading of the last pair, or none when a read fails
  unfoldable pub settle : ℕ → RawTime → RawTime → World → Option RawTime × World
  settle zero first second w = (some second, w)
  settle (suc attempts) first second w = elim (read_raw w).0 [
    | none ↦ (none, (read_raw w).1)
    | some now ↦
        let later = settle attempts now now (read_raw w).1 in
        if same_time first now then (some now, (read_raw w).1) else later
  ]

  unfoldable pub rtc_read_epoch : World → ℤ × World
  rtc_read_epoch w = elim (read_raw w).0 [
    | none ↦ (negsuc 0, (read_raw w).1)
    | some first ↦ elim (settle 10 first first (read_raw w).1).0 [
      | none ↦ (negsuc 0, (settle 10 first first (read_raw w).1).1)
      | some second ↦
          let (status_b, w') = cmos_read 0x0B (settle 10 first first (read_raw w).1).1 in
          (epoch_of second status_b, w')
    ]
  ]

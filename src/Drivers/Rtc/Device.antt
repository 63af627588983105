-- ===== src/Drivers/Rtc/Device.antt =====
-- modules/rtc/rtc.c: /dev/rtc0, `module_init` and `module_fini`.
use native.Mathlib.Numerals.{unary_clauses}
use shit_os.Prelude.{
  ℕ, zero, suc, ◌+◌, ◌-◌, ◌*◌, ◌/◌, ◌%◌, ◌^◌, ◌≤◌, ◌<◌, ◌≡◌, ◌∙◌, refl, ap, arith, Bool, true,
  false, List, [], ◌∷◌, take, drop, length, ltb, leb, ◌==◌, if◌then◌else◌, Bool-cases, inl, inr,
}
use shit_os.Prelude.Int.{ℤ, pos, negsuc, ltb_ℤ}
use shit_os.Drivers.Kernel.{KernelApi, ModuleResult, ok, abi_mismatch, io, busy, module_abi_version}
use shit_os.Drivers.Rtc.Cmos.{rtc_read_epoch}

-- `struct Rtc`, without the kernel
pub record Clock : Type 0 where
  pub epoch_at_boot : ℤ
  pub valid : Bool

-- the loop that renders backwards, with room for so many digits
unfoldable pub digits : ℕ → ℕ → List ℕ
digits zero value = []
digits (suc room) value =
    let more = digits room (value / 10) in if value == 0 then [] else (b'0' + value % 10) ∷ more

-- the digits of `epoch_at_boot`, the lowest first
unfoldable pub epoch_digits : ℤ → List ℕ
unfolding digits
epoch_digits (negsuc n) = []
epoch_digits (pos n) = if n == 0 then b'0' ∷ [] else digits 24 n

-- `while (digit_count > 0) text[written++] = digits[--digit_count]`, before what follows
unfoldable pub unwind : List ℕ → List ℕ → List ℕ
unwind [] out = out
unwind (c ∷ cs) out = unwind cs (c ∷ out)

unfoldable pub rtc_device_read : Clock → ℕ → ℕ → List ℕ
unfolding epoch_digits unwind
rtc_device_read rtc count offset =
    let text = unwind (epoch_digits rtc.epoch_at_boot) (10 ∷ []) in
    if rtc.valid
    then (if leb (length text) offset then [] else take count (drop offset text))
    else []

module _ (kernel : KernelApi) where
  open kernel use {
    World, abi_version, time_source_register, time_source_unregister, device_register,
    device_unregister,
  }

  -- the registrations, after the clock was read
  unfoldable pub register : Clock → World → ModuleResult × Clock × World
  register rtc w =
      let (claimed, w1) = time_source_register w in
      let (result, w2) = device_register "rtc0" w1 in
      elim claimed [
        | ok ↦ elim result [
          | ok ↦ (ok, rtc, w2)
          | failure ↦ (failure, rtc, time_source_unregister w2)
        ]
        | failure ↦ (busy, rtc, w1)
      ]

  unfoldable pub module_init : Clock → World → ModuleResult × Clock × World
  module_init rtc w =
      let (epoch, w1) = rtc_read_epoch kernel w in
      if ltb abi_version module_abi_version
      then (abi_mismatch, rtc, w)
      else if ltb_ℤ epoch (pos 0)
      then (io, record rtc { valid = false }, w1)
      else register (record { epoch_at_boot = epoch; valid = true }) w1

  -- `module_fini`, for a module that was initialised
  unfoldable pub module_fini : World → World
  module_fini w = time_source_unregister (device_unregister "rtc0" w)

-- reading a decimal number up to the end of the line
unfoldable pub read_decimal : ℕ → List ℕ → ℕ
read_decimal n [] = n
read_decimal n (c ∷ cs) =
    let more = read_decimal (n * 10 + (c - b'0')) cs in if c == 10 then n else more

read_decimal-unwind :
    (room value : ℕ) (out : List ℕ)
    → value < 10 ^ room
    → read_decimal 0 (unwind (digits room value) out) ≡ read_decimal value out
unfolding digits unwind read_decimal
read_decimal-unwind zero value out h = ap (λ n. read_decimal n out) (omega arith)
read_decimal-unwind (suc room) value out h = elim (Bool-cases (value == 0)) [
  | inl e ↦ rw e (ap (λ n. read_decimal n out) (ground arith))
  | inr e ↦ rw e (
      read_decimal-unwind room (value / 10) ((b'0' + value % 10) ∷ out)
        (quotient_small room value h)
      ∙ read_digit value out)
]
  where
    quotient_small : (room value : ℕ) → value < 10 ^ suc room → value / 10 < 10 ^ room
    quotient_small room value h = omega (arith, simp unary_clauses at h)

    read_digit :
        (value : ℕ) (out : List ℕ)
        → read_decimal (value / 10) ((b'0' + value % 10) ∷ out) ≡ read_decimal value out
    read_digit value out = ground arith

length-digits : (room value : ℕ) → length (digits room value) ≤ room
unfolding digits
length-digits zero value = omega arith
length-digits (suc room) value = ground (arith, length-digits room (value / 10))

length-unwind : (cs out : List ℕ) → length (unwind cs out) ≡ length cs + length out
unfolding unwind
length-unwind [] out = omega arith
length-unwind (c ∷ cs) out = omega (arith, length-unwind cs (c ∷ out))

take_all : (n : ℕ) (xs : List ℕ) → length xs ≤ n → take n xs ≡ xs
take_all zero [] h = refl
take_all zero (x ∷ xs) h = absurd (omega arith)
take_all (suc n) [] h = refl
take_all (suc n) (x ∷ xs) h = ap (λ ys. x ∷ ys) (take_all n xs (omega arith))

-- the text of a number, with room for so many digits
unfoldable text_in : ℕ → ℕ → List ℕ
text_in room n = unwind (if n == 0 then b'0' ∷ [] else digits room n) (10 ∷ [])

read_decimal-text_in : (room n : ℕ) → n < 10 ^ room → read_decimal 0 (text_in room n) ≡ n
unfolding text_in unwind read_decimal
read_decimal-text_in room n h = elim (Bool-cases (n == 0)) [
  | inl e ↦ rw e (ground arith)
  | inr e ↦ rw e (read_decimal-unwind room n (10 ∷ []) h)
]

length-text_in : (room n : ℕ) → 1 ≤ room → length (text_in room n) ≤ suc room
unfolding text_in
length-text_in room n h = ground (
  arith,
  length-digits room n,
  length-unwind (digits room n) (10 ∷ []),
  length-unwind (b'0' ∷ []) (10 ∷ []),
)

text_in-not_empty : (room n : ℕ) → 1 ≤ length (text_in room n)
unfolding text_in
text_in-not_empty room n =
    ground (arith, length-unwind (digits room n) (10 ∷ []), length-unwind (b'0' ∷ []) (10 ∷ []))

read_text :
    (room n count : ℕ)
    → n < 10 ^ room
    → 1 ≤ room
    → suc room ≤ count
    → read_decimal 0
        (if leb (length (text_in room n)) 0 then [] else take count (drop 0 (text_in room n)))
      ≡ n
read_text room n count h r k = ground (
  arith,
  read_decimal-text_in room n h,
  length-text_in room n r,
  take_all count (text_in room n),
  text_in-not_empty room n,
)

-- A read of 25 bytes or more from the start of /dev/rtc0 gives the time at boot in decimal, for a
-- clock that was read, at any time that an `i64` holds.
pub rtc_device_read_lem :
    (n count : ℕ)
    → n < 2 ^ 63
    → 25 ≤ count
    → read_decimal 0 (rtc_device_read (record { epoch_at_boot = pos n; valid = true }) count 0) ≡ n
unfolding rtc_device_read text_in
rtc_device_read_lem n count h k = read_text 24 n count (omega arith) (omega arith) k

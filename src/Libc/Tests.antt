-- ===== src/Libc/Tests.antt =====
-- Runs of the C library on small inputs.
use shit_os.Prelude.{
  Bool, true, ◌++◌, refl, ltb, ◌==◌, if◌then◌else◌, ℕ, ◌+◌, ◌<◌, ◌^◌, ◌%◌, ◌≤◌, ◌≡◌, arith, List,
  [], ◌∷◌, some,
}
use shit_os.Prelude.Int.{sub_ℕ, ℤ, ◌≤ℤ◌, pos, negsuc, pos_part}
use shit_os.Libc.Search.{sign}
use shit_os.Libc.Convert.{strtol}
use shit_os.Libc.Convert.Print.{decimal, strtol_lem}
use shit_os.Libc.Sort.{qsort}
use shit_os.Libc.Sort.Count.{count_of}
use shit_os.Libc.Sort.Order.{IsOrder, IsSorted, qsort_lem}
use shit_os.Libc.Time.{gmtime, mktime}
use shit_os.Libc.Time.RoundTrip.{mktime-gmtime}
use shit_os.Libc.Strings.Memory.{Memory, memmove, moved, memmove_lem}
use shit_os.Libc.Strings.Text.{text}
use shit_os.Libc.Strings.Search.{IsFirst, strstr, strstr_lem}

-- 29 February 2024, noon
mktime-gmtime_example :
    (pos_part (gmtime (some (pos 1709208000))).year + 1900 < 2 ^ 31)
    × (mktime (some (gmtime (some (pos 1709208000))))
        ≡ (pos 1709208000, some (gmtime (some (pos 1709208000)))))
mktime-gmtime_example = mktime-gmtime 1709208000 (omega arith)

-- every byte of memory holds the low byte of its address
abbrev numbered : Memory
numbered = λ x. x % 256

memmove_example : memmove 103 100 20 numbered 110 ≡ moved 103 100 20 numbered 110
memmove_example = memmove_lem 103 100 20 numbered 110

-- "abc", "abcabd" and "ABD"
abbrev short : List ℕ
short = 97 ∷ 98 ∷ 99 ∷ 0 ∷ 120 ∷ []

abbrev long : List ℕ
long = 97 ∷ 98 ∷ 99 ∷ 97 ∷ 98 ∷ 100 ∷ 0 ∷ []

abbrev capitals : List ℕ
capitals = 65 ∷ 66 ∷ 68 ∷ 0 ∷ []

abbrev empty_buffer : List ℕ
empty_buffer = 0 ∷ 1 ∷ 2 ∷ 3 ∷ 4 ∷ 5 ∷ 6 ∷ []

strstr_example : IsFirst (text (98 ∷ 100 ∷ [])) (text long) (strstr long (98 ∷ 100 ∷ []))
strstr_example = strstr_lem long (98 ∷ 100 ∷ [])

-- the third of four elements is the key
abbrev third_of_four : ℕ → ℤ
third_of_four i = if i == 2 then pos 0 else if ltb i 2 then pos 1 else negsuc 0

third_of_four-falls : (i j : ℕ) → i ≤ j → sign (third_of_four j) ≤ℤ sign (third_of_four i)
third_of_four-falls i j h = ground arith

-- 5, 3, 9 and 3, and how numbers compare
abbrev numbers : ℕ → ℕ
numbers k = if k == 0 then 5 else if k == 2 then 9 else 3

abbrev larger : ℕ → ℕ → Bool
larger a b = ltb b a

larger-IsOrder : IsOrder larger
larger-IsOrder = record { asym = λ a b h. ground arith; through = λ a b c h k. ground arith }

qsort_example :
    IsSorted larger 4 (qsort larger 4 8 numbers)
    × ((chosen : ℕ → Bool)
        → count_of chosen 4 (qsort larger 4 8 numbers) ≡ count_of chosen 4 numbers)
qsort_example = qsort_lem larger 4 8 numbers (omega arith) larger-IsOrder

-- " -42\n"
strtol_example :
    strtol 10 ((32 ∷ []) ++ ((45 ∷ []) ++ (decimal 43 42 ++ (10 ∷ [])))) ≡ (sub_ℕ 0 42, 10 ∷ [])
strtol_example = strtol_lem true 42 (32 ∷ []) (10 ∷ []) (omega arith) refl refl

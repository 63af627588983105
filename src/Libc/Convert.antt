-- ===== src/Libc/Convert.antt =====
-- user/libc/src/stdlib.c: strtol and its callers. A string is the list of its characters, without the NUL;
-- the pointer that `end` gets is the list that is left. A `long` is 64 bits, and is taken to wrap around
-- where signed arithmetic overflows.
use shit_os.Prelude.{
  ℕ, zero, suc, ◌+◌, ◌-◌, ◌*◌, ◌%◌, ◌^◌, Bool, true, false, ◌&&◌, ◌||◌, Option, none, some, List,
  [], ◌∷◌, ltb, leb, ◌==◌, if◌then◌else◌,
}
use shit_os.Prelude.Int.{ℤ, pos, negsuc}
pub mod Print

abbrev pub is_blank : ℕ → Bool
is_blank c = (c == 32) || ((c == 9) || (c == 10))

unfoldable pub skip_blanks : List ℕ → List ℕ
skip_blanks [] = []
skip_blanks (c ∷ s) = let rest = skip_blanks s in if is_blank c then rest else c ∷ s

abbrev pub take_sign : List ℕ → Bool × List ℕ
take_sign [] = (false, [])
take_sign (c ∷ s) = if c == 45 then (true, s) else if c == 43 then (false, s) else (false, c ∷ s)

-- do the characters begin with 0x?
abbrev pub has_hex_prefix : List ℕ → Bool
has_hex_prefix (a ∷ b ∷ s) = (a == 48) && ((b == 120) || (b == 88))
has_hex_prefix s = false

abbrev pub starts_with_zero : List ℕ → Bool
starts_with_zero [] = false
starts_with_zero (c ∷ s) = c == 48

abbrev pub tail : List ℕ → List ℕ
tail [] = []
tail (c ∷ s) = s

-- the base and where the digits start
abbrev pub take_base : ℕ → List ℕ → ℕ × List ℕ
take_base base s =
    if ((base == 0) || (base == 16)) && has_hex_prefix s
    then (16, tail (tail s))
    else if base == 0
    then (if starts_with_zero s then 8 else 10, s)
    else (base, s)

unfoldable pub digit_of : ℕ → Option ℕ
digit_of c =
    if leb 48 c && leb c 57
    then some (c - 48)
    else if leb 97 c && leb c 122
    then some (c - 97 + 10)
    else if leb 65 c && leb c 90
    then some (c - 65 + 10)
    else none

abbrev pub below : ℕ → Option ℕ → Option ℕ
below base none = none
below base (some digit) = if leb base digit then none else some digit

abbrev pub chosen_digit : Option ℕ → (ℕ → ℕ × List ℕ) → ℕ × List ℕ → ℕ × List ℕ
chosen_digit none more stop = stop
chosen_digit (some digit) more stop = more digit

unfoldable pub digits : ℕ → ℕ → List ℕ → ℕ × List ℕ
digits base value [] = (value, [])
digits base value (c ∷ s) =
    chosen_digit (below base (digit_of c))
      (λ digit. digits base ((value * base + digit) % 2 ^ 64) s) (value, c ∷ s)

-- a word as a `long`
abbrev pub to_long : ℕ → ℤ
to_long value = if ltb value (2 ^ 63) then pos value else negsuc (2 ^ 64 - 1 - value)

abbrev pub signed : Bool → ℕ × List ℕ → ℤ × List ℕ
signed negative (value, s) = (to_long (if negative then (2 ^ 64 - value) % 2 ^ 64 else value), s)

unfoldable pub strtol : ℕ → List ℕ → ℤ × List ℕ
strtol base s =
    let (negative, unsigned) = take_sign (skip_blanks s) in
    let (radix, start) = take_base base unsigned in signed negative (digits radix 0 start)

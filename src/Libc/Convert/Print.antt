-- ===== src/Libc/Convert/Print.antt =====
-- user/libc/src/stdlib.c: strtol reads what is written in decimal.
use shit_os.Prelude.{
  ℕ, zero, suc, ◌+◌, ◌-◌, ◌*◌, ◌/◌, ◌%◌, ◌^◌, ◌<◌, ◌≡◌, ◌∙◌, refl, ap, arith, Bool, true, false,
  not, ◌&&◌, none, some, List, [], ◌∷◌, ◌++◌, ltb, leb, ◌==◌, if◌then◌else◌, Bool-cases, inl, inr,
}
use mathlib.Core.List.{append_assoc}
use shit_os.Prelude.Int.{pos, sub_ℕ}
use shit_os.Libc.Convert.{
  is_blank, skip_blanks, take_sign, digit_of, below, digits, to_long, strtol,
}

-- a number in decimal, with enough room for its digits
unfoldable pub decimal : ℕ → ℕ → List ℕ
decimal zero n = []
decimal (suc room) n =
    if ltb n 10 then (48 + n) ∷ [] else decimal room (n / 10) ++ ((48 + n % 10) ∷ [])

-- is there no digit of base 10 in front?
abbrev pub stops : List ℕ → Bool
stops [] = true
stops (c ∷ s) =
    not (leb 48 c && leb c 57) && (not (leb 97 c && leb c 122) && not (leb 65 c && leb c 90))

digit_of-decimal : (d : ℕ) → d < 10 → below 10 (digit_of (48 + d)) ≡ some d
unfolding digit_of
digit_of-decimal d h =
    let is_digit : (leb 48 (48 + d) && leb (48 + d) 57) ≡ true = ground arith in
    let back : 48 + d - 48 ≡ d = omega arith in
    let small : leb 10 d ≡ false = ground arith in rw (is_digit, back, small) refl

digit_of-stop : (c : ℕ) (s : List ℕ) → stops (c ∷ s) ≡ true → digit_of c ≡ none
unfolding digit_of
digit_of-stop c s h =
    let no_digit : (leb 48 c && leb c 57) ≡ false = ground (arith, h) in
    let no_lower : (leb 97 c && leb c 122) ≡ false = ground (arith, h) in
    let no_upper : (leb 65 c && leb c 90) ≡ false = ground (arith, h) in
    rw (no_digit, no_lower, no_upper) refl

digits-digit :
    (value d : ℕ) (s : List ℕ)
    → d < 10
    → value * 10 + d < 2 ^ 64
    → digits 10 value ((48 + d) ∷ s) ≡ digits 10 (value * 10 + d) s
unfolding digits
digits-digit value d s h l =
    let fits : (value * 10 + d) % 2 ^ 64 ≡ value * 10 + d = omega arith in
    rw (digit_of-decimal d h) (ap (λ v. digits 10 v s) fits)

digits-stops : (value : ℕ) (s : List ℕ) → stops s ≡ true → digits 10 value s ≡ (value, s)
unfolding digits
digits-stops value [] h = refl
digits-stops value (c ∷ s) h = rw (digit_of-stop c s h) refl

digits-decimal :
    (room n : ℕ) (s : List ℕ)
    → n < room
    → n < 2 ^ 64
    → digits 10 0 (decimal room n ++ s) ≡ digits 10 n s
unfolding decimal
digits-decimal zero n s h l = absurd (omega arith)
digits-decimal (suc room) n s h l = elim (Bool-cases (ltb n 10)) [
  | inl e ↦
      rw (e)
        (digits-digit 0 n s (ground arith) (ground arith) ∙ ap (λ v. digits 10 v s) (omega arith))
  | inr e ↦
      let one = digits-decimal room (n / 10) ((48 + n % 10) ∷ s) (ground arith) (omega arith) in
      let last = digits-digit (n / 10) (n % 10) s (omega arith) (omega arith) in
      rw (e) (
        ap (digits 10 0) (append_assoc (decimal room (n / 10)) ((48 + n % 10) ∷ []) s)
        ∙ one
        ∙ last
        ∙ ap (λ v. digits 10 v s) (omega arith))
]

-- does a number begin here?
abbrev is_digit : List ℕ → Bool
is_digit [] = false
is_digit (c ∷ s) = leb 48 c && leb c 57

decimal-is_digit : (room n : ℕ) (s : List ℕ) → n < room → is_digit (decimal room n ++ s) ≡ true
unfolding decimal
decimal-is_digit zero n s h = absurd (omega arith)
decimal-is_digit (suc room) n s h = elim (Bool-cases (ltb n 10)) [
  | inl e ↦ rw (e) (ground arith)
  | inr e ↦ rw (e) (
      ap is_digit (append_assoc (decimal room (n / 10)) ((48 + n % 10) ∷ []) s)
      ∙ decimal-is_digit room (n / 10) ((48 + n % 10) ∷ s) (ground arith))
]

skip_blanks-digit : (s : List ℕ) → is_digit s ≡ true → skip_blanks s ≡ s
unfolding skip_blanks
skip_blanks-digit [] h = refl
skip_blanks-digit (c ∷ s) h =
    let no_blank : is_blank c ≡ false = ground (arith, h) in rw (no_blank) refl

take_sign-digit : (s : List ℕ) → is_digit s ≡ true → take_sign s ≡ (false, s)
take_sign-digit [] h = refl
take_sign-digit (c ∷ s) h =
    let no_minus : (c == 45) ≡ false = ground (arith, h) in
    let no_plus : (c == 43) ≡ false = ground (arith, h) in rw (no_minus, no_plus) refl

abbrev all_blank : List ℕ → Bool
all_blank [] = true
all_blank (c ∷ s) = is_blank c && all_blank s

skip_blanks-append : (b s : List ℕ) → all_blank b ≡ true → skip_blanks (b ++ s) ≡ skip_blanks s
unfolding skip_blanks
skip_blanks-append [] s h = refl
skip_blanks-append (c ∷ b) s h =
    let blank : is_blank c ≡ true = ground (arith, h) in
    rw (blank) (skip_blanks-append b s (ground (arith, h)))

strtol-digits :
    (n : ℕ) (s : List ℕ)
    → n < 2 ^ 63
    → stops s ≡ true
    → digits 10 0 (decimal (n + 1) n ++ s) ≡ (n, s)
strtol-digits n s l h = digits-decimal (n + 1) n s (omega arith) (omega arith) ∙ digits-stops n s h

plain_lem :
    (n : ℕ) (blanks s : List ℕ)
    → n < 2 ^ 63
    → all_blank blanks ≡ true
    → stops s ≡ true
    → strtol 10 (blanks ++ (decimal (n + 1) n ++ s)) ≡ (pos n, s)
unfolding strtol
plain_lem n blanks s l b h =
    let number = decimal-is_digit (n + 1) n s (omega arith) in
    let skipped =
      skip_blanks-append blanks (decimal (n + 1) n ++ s) b
      ∙ skip_blanks-digit (decimal (n + 1) n ++ s) number in
    let small : ltb n (2 ^ 63) ≡ true = ground arith in
    rw (skipped, take_sign-digit (decimal (n + 1) n ++ s) number, strtol-digits n s l h, small) refl

to_long-negated : (n : ℕ) → n < 2 ^ 63 → to_long ((2 ^ 64 - n) % 2 ^ 64) ≡ sub_ℕ 0 n
to_long-negated n l = elim (Bool-cases (n == 0)) [
  | inl e ↦ let none : n ≡ 0 = ground arith in rw (none) refl
  | inr e ↦
      let wrapped : (2 ^ 64 - n) % 2 ^ 64 ≡ 2 ^ 64 - n = ground arith in
      let large : ltb (2 ^ 64 - n) (2 ^ 63) ≡ false = ground arith in
      let positive : leb n 0 ≡ false = ground arith in
      let same : 2 ^ 64 - 1 - (2 ^ 64 - n) ≡ n - 0 - 1 = ground arith in
      rw (wrapped, large, positive, same) refl
]

minus_lem :
    (n : ℕ) (blanks s : List ℕ)
    → n < 2 ^ 63
    → all_blank blanks ≡ true
    → stops s ≡ true
    → strtol 10 (blanks ++ (45 ∷ (decimal (n + 1) n ++ s))) ≡ (sub_ℕ 0 n, s)
unfolding strtol skip_blanks
minus_lem n blanks s l b h =
    rw
      (
        skip_blanks-append blanks (45 ∷ (decimal (n + 1) n ++ s)) b,
        strtol-digits n s l h,
        to_long-negated n l,
      )
      refl

-- A number below 2^63 written in decimal, behind any blanks, with or without a minus sign, and before the
-- end or a character that is no letter and no digit, is what `strtol` in base 10 reads, up to there.
pub strtol_lem :
    (minus : Bool) (n : ℕ) (blanks s : List ℕ)
    → n < 2 ^ 63
    → all_blank blanks ≡ true
    → stops s ≡ true
    → strtol 10 (blanks ++ ((if minus then 45 ∷ [] else []) ++ (decimal (n + 1) n ++ s)))
      ≡ ((if minus then sub_ℕ 0 n else pos n), s)
strtol_lem true n blanks s l b h = minus_lem n blanks s l b h
strtol_lem false n blanks s l b h = plain_lem n blanks s l b h

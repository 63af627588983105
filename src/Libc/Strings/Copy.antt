-- ===== src/Libc/Strings/Copy.antt =====
-- user/libc/src/string.c: the functions that write strings. The destination is a buffer, from the
-- pointer to its end, that does not overlap the source.
use shit_os.Prelude.{
  ℕ, zero, suc, ◌+◌, ◌-◌, ◌%◌, ◌<◌, ◌≡◌, ◌∙◌, refl, arith, false, List, [], ◌∷◌, ◌++◌, Option, none,
  some, length, set, drop, ltb, ◌==◌, if◌then◌else◌, Bool-cases, inl, inr, ap, sym, length-append,
}
use shit_os.Libc.Strings.Text.{String, first, rest, text, strlen, strlen_lem}

-- `memcpy` into a buffer
unfoldable pub copy_in : List ℕ → ℕ → String → ℕ → List ℕ
copy_in dest at src zero = dest
copy_in dest at src (suc n) = copy_in (set dest at (first src)) (at + 1) (rest src) n

-- `while ((*out++ = *src++));` from an offset of the buffer; the offset of the terminator written
unfoldable pub copy_string : List ℕ → ℕ → String → List ℕ × ℕ
copy_string dest at [] = (set dest at 0, at)
copy_string dest at (c ∷ src) =
    let more = copy_string (set dest at c) (at + 1) src in
    if c == 0 then (set dest at 0, at) else more

unfoldable pub strcpy : List ℕ → String → List ℕ
unfolding copy_string
strcpy dest src = (copy_string dest 0 src).0

unfoldable pub stpcpy : List ℕ → String → List ℕ × ℕ
unfolding copy_string
stpcpy dest src = copy_string dest 0 src

unfoldable pub strcat : List ℕ → String → List ℕ
unfolding copy_string strlen
strcat dest src = (copy_string dest (strlen dest) src).0

-- the loop of `strncat`: n bytes at most, and a terminator after them
unfoldable pub append_at : List ℕ → ℕ → String → ℕ → List ℕ
append_at dest at src zero = set dest at 0
append_at dest at [] (suc n) = set dest at 0
append_at dest at (c ∷ src) (suc n) =
    let more = append_at (set dest at c) (at + 1) src n in if c == 0 then set dest at 0 else more

unfoldable pub strncat : List ℕ → String → ℕ → List ℕ
unfolding append_at strlen
strncat dest src n = append_at dest (strlen dest) src n

-- the second loop of `strncpy`
unfoldable pub pad : List ℕ → ℕ → ℕ → List ℕ
pad dest at zero = dest
pad dest at (suc n) = pad (set dest at 0) (at + 1) n

-- both loops, with the offset where the copy stopped, that `stpncpy` returns
unfoldable pub stpncpy_at : List ℕ → ℕ → String → ℕ → List ℕ × ℕ
unfolding pad
stpncpy_at dest at src zero = (dest, at)
stpncpy_at dest at [] (suc n) = (pad dest at (suc n), at)
stpncpy_at dest at (c ∷ src) (suc n) =
    let more = stpncpy_at (set dest at c) (at + 1) src n in
    if c == 0 then (pad dest at (suc n), at) else more

unfoldable pub stpncpy : List ℕ → String → ℕ → List ℕ × ℕ
unfolding stpncpy_at
stpncpy dest src n = stpncpy_at dest 0 src n

unfoldable pub strncpy : List ℕ → String → ℕ → List ℕ
unfolding stpncpy_at
strncpy dest src n = (stpncpy_at dest 0 src n).0

-- in the C locale a string is its own key
unfoldable pub strxfrm : List ℕ → String → ℕ → List ℕ × ℕ
unfolding copy_in strlen
strxfrm dest src n =
    let size = strlen src in
    let copied = if ltb size (n - 1) then size else n - 1 in
    if ltb 0 n then (set (copy_in dest 0 src copied) copied 0, size) else (dest, size)

-- `malloc` may refuse: the buffer it gives is none then, or has at least the size asked for.
unfoldable pub strdup : (ℕ → Option (List ℕ)) → String → Option (List ℕ)
unfolding copy_in strlen
strdup malloc s = copied (malloc (strlen s + 1))
  where
    copied : Option (List ℕ) → Option (List ℕ)
    copied none = none
    copied (some buffer) = some (copy_in buffer 0 s (strlen s + 1))

unfoldable pub memccpy : List ℕ → ℕ → String → ℕ → ℕ → List ℕ × Option ℕ
memccpy dest at src c zero = (dest, none)
memccpy dest at src c (suc n) =
    let written = set dest at (first src) in
    let more = memccpy written (at + 1) (rest src) c n in
    if first src == c % 256 then (written, some (at + 1)) else more

set_append :
    (before dest : List ℕ) (x c : ℕ)
    → set (before ++ x ∷ dest) (length before) c ≡ before ++ c ∷ dest
set_append [] dest x c = refl
set_append (b ∷ before) dest x c = ap (λ xs. b ∷ xs) (set_append before dest x c)

append_one : (before dest : List ℕ) (c : ℕ) → (before ++ c ∷ []) ++ dest ≡ before ++ c ∷ dest
append_one [] dest c = refl
append_one (b ∷ before) dest c = ap (λ xs. b ∷ xs) (append_one before dest c)

-- what a copy of the text is to leave: the text and a terminator over the first bytes
abbrev written : List ℕ → List ℕ → List ℕ → List ℕ × ℕ
written before txt dest =
    (before ++ (txt ++ 0 ∷ drop (suc (length txt)) dest), length before + length txt)

written_one :
    (before txt dest : List ℕ) (x c : ℕ)
    → written (before ++ c ∷ []) txt dest ≡ written before (c ∷ txt) (x ∷ dest)
written_one before txt dest x c = ground (
  arith,
  append_one before (txt ++ 0 ∷ drop (suc (length txt)) dest) c,
  length-append before (c ∷ []),
)

copy_string_end :
    (dest before : List ℕ)
    → 0 < length dest
    → (set (before ++ dest) (length before) 0, length before) ≡ written before [] dest
copy_string_end [] before h = absurd (omega arith)
copy_string_end (x ∷ dest) before h = ground (arith, set_append before dest x 0)

copy_step :
    (src : String) (before txt dest : List ℕ) (x c : ℕ)
    → copy_string ((before ++ c ∷ []) ++ dest) (length (before ++ c ∷ [])) src
      ≡ written (before ++ c ∷ []) txt dest
    → copy_string (before ++ c ∷ dest) (length before + 1) src ≡ written before (c ∷ txt) (x ∷ dest)
copy_step src before txt dest x c e = ground (
  arith,
  e,
  append_one before dest c,
  length-append before (c ∷ []),
  written_one before txt dest x c,
)

copy_string_lem :
    (src : String) (dest before : List ℕ)
    → length (text src) < length dest
    → copy_string (before ++ dest) (length before) src ≡ written before (text src) dest
unfolding copy_string text
copy_string_lem [] dest before h = copy_string_end dest before h
copy_string_lem (c ∷ src) [] before h = absurd (omega arith)
copy_string_lem (c ∷ src) (x ∷ dest) before h = elim (Bool-cases (c == 0)) [
  | inl z ↦ rw z (copy_string_end (x ∷ dest) before (omega arith))
  | inr z ↦
      rw (z, set_append before dest x c)
        (copy_step src before (text src) dest x c
          (copy_string_lem src dest (before ++ c ∷ []) (fits z)))
]
  where
    fits : (c == 0) ≡ false → length (text src) < length dest
    fits z = ground (arith, h)

-- `strcpy` leaves the source's text and a terminator at the start of a buffer that has room for
-- them, and what follows as it was.
pub strcpy_lem :
    (dest src : List ℕ)
    → length (text src) < length dest
    → strcpy dest src ≡ text src ++ 0 ∷ drop (suc (length (text src))) dest
unfolding strcpy
strcpy_lem dest src h = ground (arith, copy_string_lem src dest [] h)

before_text : (dest : List ℕ) → dest ≡ text dest ++ drop (length (text dest)) dest
unfolding text
before_text [] = refl
before_text (c ∷ dest) = ground (arith, before_text dest)

drop_at : (m n : ℕ) (xs : List ℕ) → m ≡ n → drop m xs ≡ drop n xs
drop_at m n xs e = ap (λ n. drop n xs) e

drop_nil : (k : ℕ) → drop {A = ℕ} k [] ≡ []
drop_nil zero = refl
drop_nil (suc k) = refl

drop-drop : (k n : ℕ) (xs : List ℕ) → drop k (drop n xs) ≡ drop (n + k) xs
drop-drop k zero xs = drop_at k (0 + k) xs (omega arith)
drop-drop k (suc n) [] = drop_nil k ∙ sym (drop_nil (suc n + k))
drop-drop k (suc n) (x ∷ xs) =
    drop-drop k n xs ∙ drop_at (suc (n + k)) (suc n + k) (x ∷ xs) (omega arith)

length-drop : (n : ℕ) (xs : List ℕ) → length (drop n xs) ≡ length xs - n
length-drop zero xs = omega arith
length-drop (suc n) [] = omega arith
length-drop (suc n) (x ∷ xs) = omega (arith, length-drop n xs)

-- `strcat` leaves the text of the destination, then the source's and a terminator, in a buffer that
-- has room for them.
pub strcat_lem :
    (dest src : List ℕ)
    → length (text dest) + length (text src) < length dest
    → strcat dest src
      ≡ text dest ++ (text src ++ 0 ∷ drop (length (text dest) + suc (length (text src))) dest)
unfolding strcat
strcat_lem dest src h = ground (
  arith,
  strlen_lem dest,
  before_text dest,
  copy_string_lem src (drop (length (text dest)) dest) (text dest)
      (omega (arith, length-drop (length (text dest)) dest)),
  drop-drop (suc (length (text src))) (length (text dest)) dest,
)

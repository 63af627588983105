-- ===== src/Libc/Strings/Text.antt =====
-- user/libc/src/string.c: the functions on terminated strings. A string is the list of the bytes
-- from its first one on; past the list stands the terminator, so reading there gives 0. A returned
-- pointer is the offset from the argument, and none for a null pointer.
use shit_os.Prelude.{
  ℕ, zero, suc, ◌+◌, ◌%◌, ◌≡◌, refl, arith, not, ◌&&◌, List, [], ◌∷◌, Option, none, some, length,
  take, ltb, leb, ◌==◌, if◌then◌else◌,
}
use shit_os.Prelude.Int.{ℤ, pos, sub_ℕ}

abbrev pub String : Type 0
String = List ℕ

-- `*s` and `s + 1`
abbrev pub first : String → ℕ
first [] = 0
first (c ∷ s) = c

abbrev pub rest : String → String
rest [] = []
rest (c ∷ s) = s

-- `return (int)(unsigned char)*a - (int)(unsigned char)*b`
abbrev pub difference : ℕ → ℕ → ℤ
difference x y = sub_ℕ x y

unfoldable pub strlen : String → ℕ
strlen [] = 0
strlen (c ∷ s) = let n = strlen s in if c == 0 then 0 else suc n

unfoldable pub strnlen : String → ℕ → ℕ
strnlen s zero = 0
strnlen [] (suc max) = 0
strnlen (c ∷ s) (suc max) = let n = strnlen s max in if c == 0 then 0 else suc n

unfoldable pub memcmp : String → String → ℕ → ℤ
memcmp a b zero = pos 0
memcmp a b (suc n) =
    let more = memcmp (rest a) (rest b) n in
    if not (first a == first b) then difference (first a) (first b) else more

unfoldable pub memchr : String → ℕ → ℕ → Option ℕ
memchr s needle zero = none
memchr s needle (suc n) =
    let more = memchr (rest s) needle n in if first s == needle % 256 then some 0 else next more
  where
    next : Option ℕ → Option ℕ
    next none = none
    next (some i) = some (suc i)

unfoldable pub strcmp : String → String → ℤ
strcmp [] b = difference 0 (first b)
strcmp (x ∷ a) b =
    let more = strcmp a (rest b) in
    if not (x == 0) && (x == first b) then more else difference x (first b)

unfoldable pub strncmp : String → String → ℕ → ℤ
strncmp a b zero = pos 0
strncmp [] b (suc n) = difference 0 (first b)
strncmp (x ∷ a) b (suc n) =
    let more = strncmp a (rest b) n in
    if not (x == 0) && (x == first b) then more else difference x (first b)

unfoldable pub lower : ℕ → ℕ
lower c = if leb b'A' c && leb c b'Z' then c + 32 else c

unfoldable pub strcasecmp : String → String → ℤ
unfolding lower
strcasecmp [] b = difference (lower 0) (lower (first b))
strcasecmp (x ∷ a) b =
    let more = strcasecmp a (rest b) in
    if not (x == 0) && (lower x == lower (first b))
    then more
    else difference (lower x) (lower (first b))

unfoldable pub strncasecmp : String → String → ℕ → ℤ
unfolding lower
strncasecmp a b zero = pos 0
strncasecmp [] b (suc n) = difference (lower 0) (lower (first b))
strncasecmp (x ∷ a) b (suc n) =
    let more = strncasecmp a (rest b) n in
    if not (x == 0) && (lower x == lower (first b))
    then more
    else difference (lower x) (lower (first b))

-- the bytes before the terminator
unfoldable pub text : String → List ℕ
text [] = []
text (c ∷ s) = let cs = text s in if c == 0 then [] else c ∷ cs

-- `strlen` counts the bytes before the terminator.
pub strlen_lem : (s : String) → strlen s ≡ length (text s)
unfolding strlen text
strlen_lem [] = refl
strlen_lem (c ∷ s) = ground (arith, strlen_lem s)

-- `strnlen` is `strlen`, or the bound where that is less.
pub strnlen_lem :
    (s : String) (max : ℕ) → strnlen s max ≡ (if ltb (strlen s) max then strlen s else max)
unfolding strnlen strlen
strnlen_lem s zero = ground arith
strnlen_lem [] (suc max) = ground arith
strnlen_lem (c ∷ s) (suc max) = ground (arith, strnlen_lem s max)

-- what an ordering of byte strings gives: the difference at the first place where they differ, and
-- the terminator before any byte
unfoldable pub lexical : List ℕ → List ℕ → ℤ
lexical [] [] = pos 0
lexical [] (y ∷ ys) = difference 0 y
lexical (x ∷ xs) [] = difference x 0
lexical (x ∷ xs) (y ∷ ys) = let more = lexical xs ys in if x == y then more else difference x y

-- `strcmp` compares the bytes before the terminators in the lexical order.
pub strcmp_lem : (a b : String) → strcmp a b ≡ lexical (text a) (text b)
unfolding strcmp text lexical
strcmp_lem [] [] = refl
strcmp_lem [] (y ∷ b) = ground arith
strcmp_lem (x ∷ a) [] = ground arith
strcmp_lem (x ∷ a) (y ∷ b) = ground (arith, strcmp_lem a b)

-- `strncmp` does so on the first n bytes of each.
pub strncmp_lem :
    (a b : String) (n : ℕ) → strncmp a b n ≡ lexical (take n (text a)) (take n (text b))
unfolding strncmp text lexical
strncmp_lem a b zero = ground arith
strncmp_lem [] [] (suc n) = refl
strncmp_lem [] (y ∷ b) (suc n) = ground arith
strncmp_lem (x ∷ a) [] (suc n) = ground arith
strncmp_lem (x ∷ a) (y ∷ b) (suc n) = ground (arith, strncmp_lem a b n)

unfoldable pub lowered : List ℕ → List ℕ
unfolding lower
lowered [] = []
lowered (c ∷ cs) = lower c ∷ lowered cs

-- `strcasecmp` compares in the lexical order of the strings with A to Z written small.
pub strcasecmp_lem : (a b : String) → strcasecmp a b ≡ lexical (lowered (text a)) (lowered (text b))
unfolding strcasecmp text lexical lowered lower
strcasecmp_lem [] [] = refl
strcasecmp_lem [] (y ∷ b) = ground arith
strcasecmp_lem (x ∷ a) [] = ground arith
strcasecmp_lem (x ∷ a) (y ∷ b) = ground (arith, strcasecmp_lem a b)

-- `strncasecmp` does so on the first n bytes of each.
pub strncasecmp_lem :
    (a b : String) (n : ℕ)
    → strncasecmp a b n ≡ lexical (lowered (take n (text a))) (lowered (take n (text b)))
unfolding strncasecmp text lexical lowered lower
strncasecmp_lem a b zero = ground arith
strncasecmp_lem [] [] (suc n) = refl
strncasecmp_lem [] (y ∷ b) (suc n) = ground arith
strncasecmp_lem (x ∷ a) [] (suc n) = ground arith
strncasecmp_lem (x ∷ a) (y ∷ b) (suc n) = ground (arith, strncasecmp_lem a b n)

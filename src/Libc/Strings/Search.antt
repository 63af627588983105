-- ===== src/Libc/Strings/Search.antt =====
-- user/libc/src/string.c: looking for a byte, a set of bytes and a string.
use shit_os.Prelude.{
  ℕ, zero, suc, ◌+◌, ◌%◌, ◌≡◌, ◌∙◌, refl, arith, Bool, true, false, not, ◌&&◌, List, [], ◌∷◌,
  Option, none, some, get_or, set, drop, ◌==◌, if◌then◌else◌, Bool-cases, inl, inr, every_below,
}
use shit_os.Libc.Strings.Text.{String, first, rest, text}

-- the offset in the string, for one in what follows its first byte
unfoldable pub next : Option ℕ → Option ℕ
next none = none
next (some i) = some (suc i)

unfoldable pub strchr : String → ℕ → Option ℕ
unfolding next
strchr [] c = if c == 0 then some 0 else none
strchr (x ∷ s) c =
    let more = next (strchr s c) in
    if x == 0 then (if c == 0 then some 0 else none) else if x == c % 256 then some 0 else more

-- the loop of `strrchr`, with the last place that was found
unfoldable pub strrchr_from : String → ℕ → ℕ → Option ℕ → Option ℕ
strrchr_from [] c i found = if 0 == c % 256 then some i else found
strrchr_from (x ∷ s) c i found =
    let found1 = if x == c % 256 then some i else found in
    let more = strrchr_from s c (i + 1) found1 in if x == 0 then found1 else more

unfoldable pub strrchr : String → ℕ → Option ℕ
unfolding strrchr_from
strrchr s c = strrchr_from s c 0 none

unfoldable pub strchrnul : String → ℕ → ℕ
strchrnul [] c = 0
strchrnul (x ∷ s) c =
    let more = suc (strchrnul s c) in if not (x == 0) && not (x == c % 256) then more else 0

-- the inner loop of `strstr`: does the needle stand here?
unfoldable pub starts : String → String → Bool
starts h [] = true
starts h (y ∷ n) =
    let more = starts (rest h) n in if (first h == y) && not (y == 0) then more else y == 0

unfoldable pub strstr_from : String → String → Option ℕ
unfolding starts next
strstr_from [] n = none
strstr_from (x ∷ h) n =
    let more = next (strstr_from h n) in
    if x == 0 then none else if starts (x ∷ h) n then some 0 else more

unfoldable pub strstr : String → String → Option ℕ
unfolding strstr_from
strstr h n = if first n == 0 then some 0 else strstr_from h n

abbrev is_some : Option ℕ → Bool
is_some none = false
is_some (some i) = true

-- `strchr(accept, c) != 0`
unfoldable pub holds : String → ℕ → Bool
unfolding strchr
holds accept c = is_some (strchr accept c)

unfoldable pub strpbrk : String → String → Option ℕ
unfolding holds next
strpbrk [] accept = none
strpbrk (x ∷ s) accept =
    let more = next (strpbrk s accept) in
    if x == 0 then none else if holds accept x then some 0 else more

unfoldable pub strspn : String → String → ℕ
unfolding holds
strspn [] accept = 0
strspn (x ∷ s) accept =
    let n = suc (strspn s accept) in if not (x == 0) && holds accept x then n else 0

unfoldable pub strcspn : String → String → ℕ
unfolding holds
strcspn [] reject = 0
strcspn (x ∷ s) reject =
    let n = suc (strcspn s reject) in if not (x == 0) && not (holds reject x) then n else 0

-- The buffer that `strtok` cuts up, with its static pointer as an offset in it.
pub record Cutting : Type 0 where
  pub buffer : String
  pub saved : Option ℕ

-- one call, from an offset
unfoldable pub strtok_at : ℕ → String → String → Option ℕ × Cutting
strtok_at s delimiters buffer =
    let start = s + strspn (drop s buffer) delimiters in
    let end = start + strcspn (drop start buffer) delimiters in
    if get_or buffer start 0 == 0
    then (none, record { buffer = buffer; saved = none })
    else if get_or buffer end 0 == 0
    then (some start, record { buffer = buffer; saved = none })
    else (some start, record { buffer = set buffer end 0; saved = some (end + 1) })

-- `strtok(0, delimiters)`
unfoldable pub strtok : String → Cutting → Option ℕ × Cutting
unfolding strtok_at
strtok delimiters c = strtok_from c.saved
  where
    strtok_from : Option ℕ → Option ℕ × Cutting
    strtok_from none = (none, c)
    strtok_from (some s) = strtok_at s delimiters c.buffer

unfoldable pub prefix : List ℕ → List ℕ → Bool
prefix [] xs = true
prefix (y ∷ ys) [] = false
prefix (y ∷ ys) (x ∷ xs) = let more = prefix ys xs in if y == x then more else false

-- the first place of ys in xs, or none where there is none
pub IsFirst : List ℕ → List ℕ → Option ℕ → Type 0
IsFirst ys xs none = (j : ℕ) → prefix ys (drop j xs) ≡ false
IsFirst ys xs (some i) =
    (prefix ys (drop i xs) ≡ true) × (every_below (λ j. not (prefix ys (drop j xs))) i ≡ true)

starts_lem : (h n : String) → starts h n ≡ prefix (text n) (text h)
unfolding starts prefix text
starts_lem h [] = refl
starts_lem [] (y ∷ n) = ground (arith, starts_lem [] n)
starts_lem (x ∷ h) (y ∷ n) = ground (arith, starts_lem h n)

here : (ys xs : List ℕ) → prefix ys xs ≡ true → IsFirst ys xs (some 0)
unfolding IsFirst every_below
here ys xs h = (h, refl)

every_below-suc :
    (p : ℕ → Bool) (n : ℕ)
    → p 0 ≡ true
    → every_below (λ j. p (suc j)) n ≡ true
    → every_below p (suc n) ≡ true
unfolding every_below
every_below-suc p zero h k = ground arith
every_below-suc p (suc n) h k = ground (arith, every_below-suc p n h)

later_some :
    (ys xs : List ℕ) (x i : ℕ)
    → prefix ys (x ∷ xs) ≡ false
    → IsFirst ys xs (some i)
    → IsFirst ys (x ∷ xs) (some (suc i))
unfolding IsFirst
later_some ys xs x i h f =
    (f.0, every_below-suc (λ j. not (prefix ys (drop j (x ∷ xs)))) i (rw h refl) f.1)

later_none :
    (ys xs : List ℕ) (x : ℕ)
    → prefix ys (x ∷ xs) ≡ false
    → IsFirst ys xs none
    → IsFirst ys (x ∷ xs) none
unfolding IsFirst
later_none ys xs x h f zero = h
later_none ys xs x h f (suc j) = f j

later :
    (ys xs : List ℕ) (x : ℕ) (o : Option ℕ)
    → prefix ys (x ∷ xs) ≡ false
    → IsFirst ys xs o
    → IsFirst ys (x ∷ xs) (next o)
unfolding next
later ys xs x none h f = later_none ys xs x h f
later ys xs x (some i) h f = later_some ys xs x i h f

nowhere_lem : (y : ℕ) (ys : List ℕ) → IsFirst (y ∷ ys) [] none
unfolding IsFirst prefix
nowhere_lem y ys zero = refl
nowhere_lem y ys (suc j) = refl

strstr_from_lem :
    (h : String) {y : ℕ} {ys : List ℕ} (n : String)
    → text n ≡ y ∷ ys
    → IsFirst (text n) (text h) (strstr_from h n)
unfolding strstr_from text
strstr_from_lem [] n e = rw e (nowhere_lem _ _)
strstr_from_lem (x ∷ h) n e = elim (Bool-cases (x == 0)) [
  | inl z ↦ rw (z, e) (nowhere_lem _ _)
  | inr z ↦ elim (Bool-cases (starts (x ∷ h) n)) [
    | inl s ↦ rw (z, s) (here _ _ (starts_here z ∙ s))
    | inr s ↦ rw (z, s) (later _ _ _ (strstr_from h n) (starts_here z ∙ s) (strstr_from_lem h n e))
  ]
]
  where
    starts_here : (x == 0) ≡ false → prefix (text n) (x ∷ text h) ≡ starts (x ∷ h) n
    starts_here z = ground (arith, starts_lem (x ∷ h) n, z)

text_end : (y : ℕ) (n : String) → (y == 0) ≡ true → text (y ∷ n) ≡ []
unfolding text
text_end y n z = rw z refl

text_more : (y : ℕ) (n : String) → (y == 0) ≡ false → text (y ∷ n) ≡ y ∷ text n
unfolding text
text_more y n z = rw z refl

strstr_nil : (h : String) → IsFirst (text []) (text h) (strstr h [])
unfolding strstr text prefix
strstr_nil h = here [] (text h) refl

-- `strstr` returns the first place where the needle's text stands in the haystack's, and a null
-- pointer where it stands at none.
pub strstr_lem : (h n : String) → IsFirst (text n) (text h) (strstr h n)
unfolding strstr prefix
strstr_lem h [] = strstr_nil h
strstr_lem h (y ∷ n) = elim (Bool-cases (y == 0)) [
  | inl z ↦ rw (z, text_end y n z) (here [] (text h) refl)
  | inr z ↦ rw z (strstr_from_lem h (y ∷ n) (text_more y n z))
]

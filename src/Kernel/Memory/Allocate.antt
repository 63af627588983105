-- ===== src/Kernel/Memory/Allocate.antt =====
-- kernel/mm/physical.cpp: the search for one page.
use shit_os.Prelude.{
  ℕ, zero, suc, ◌+◌, ◌-◌, ◌*◌, ◌/◌, ◌≤◌, ◌<◌, ◌≡◌, refl, arith, Bool, true, false, Option, none,
  some, ltb, ◌==◌, Bool-cases, inl, inr,
}
use shit_os.Kernel.Memory.Physical.{
  page_size, cleared, allocate_zeroed_page, Pages, set_bit, first_clear, stops, checked, scan,
  bitmap_words, attempt_after, taken, allocate_page,
}
use shit_os.Kernel.Memory.Count.{IsValid, take_page-IsValid}

-- all pages of a range are used
abbrev pub AllUsed : ℕ → ℕ → (ℕ → Bool) → Type 0
AllUsed from to used = (j : ℕ) → from ≤ j → j < to → used j ≡ true

-- the first free page of a range
abbrev pub IsFirst : ℕ → ℕ → (ℕ → Bool) → Option ℕ → Type 0
IsFirst from to used none = AllUsed from to used
IsFirst from to used (some k) = (from ≤ k) × (k < to) × (used k ≡ false) × AllUsed from k used

IsFirst-step :
    (i bits : ℕ) (used : ℕ → Bool) (more : Option ℕ)
    → used i ≡ true
    → IsFirst (i + 1) (i + 1 + bits) used more
    → IsFirst i (i + suc bits) used more
IsFirst-step i bits used none u h = λ j a b. elim (Bool-cases (j == i)) [
  | inl e ↦ ground arith
  | inr e ↦ h j (ground arith) (ground arith)
]
IsFirst-step i bits used (some k) u h = (
  ground arith,
  ground arith,
  h.2,
  λ j a b. elim (Bool-cases (j == i)) [
    | inl e ↦ ground arith
    | inr e ↦ h.3 j (ground arith) (ground arith)
  ],
)

first_clear-IsFirst : (bits i : ℕ) (p : Pages) → IsFirst i (i + bits) p.used (first_clear bits i p)
unfolding first_clear
first_clear-IsFirst zero i p = λ j a b. ground arith
first_clear-IsFirst (suc bits) i p = elim (Bool-cases (p.used i)) [
  | inl u ↦ rw (u) (
      IsFirst-step i bits p.used (first_clear bits (i + 1) p) u
        (first_clear-IsFirst bits (i + 1) p))
  | inr u ↦ rw (u) (ground arith, ground arith, u, λ j a b. ground arith)
]

-- what an attempt promises: of the pages before its limit
abbrev pub Attempted : Bool → ℕ → Pages → Option ℕ → Type 0
Attempted second from p none = (j : ℕ) → from ≤ j → stops second j p ≡ false → p.used j ≡ true
Attempted second from p (some k) = (p.used k ≡ false) × (stops second k p ≡ false)

checked-Attempted :
    (second : Bool) (from mid : ℕ) (p : Pages) (found more : Option ℕ)
    → from ≤ mid
    → IsFirst from mid p.used found
    → Attempted second mid p more
    → Attempted second from p (checked second p found more)
checked-Attempted second from mid p none none a h m = λ j b e. elim (Bool-cases (ltb j mid)) [
  | inl l ↦ h j b (ground arith)
  | inr l ↦ m j (ground arith) e
]
checked-Attempted second from mid p none (some k) a h m = m
checked-Attempted second from mid p (some i) more a h m = elim (Bool-cases (stops second i p)) [
  | inl e ↦ rw (e) (λ j b n. elim (Bool-cases (ltb j i)) [
    | inl l ↦ h.3 j b (ground arith)
    | inr l ↦ absurd (ground arith)
  ])
  | inr e ↦ rw (e) (h.2, e)
]

Attempted-later :
    (second : Bool) (from to : ℕ) (p : Pages) (found : Option ℕ)
    → from ≤ to
    → Attempted second from p found
    → Attempted second to p found
Attempted-later second from to p none l h = λ j a. h j (ground arith)
Attempted-later second from to p (some k) l h = h

scan-Attempted :
    (second : Bool) (words word : ℕ) (p : Pages)
    → p.total ≤ (word + words) * 64
    → Attempted second (word * 64) p (scan second words word p)
unfolding scan
scan-Attempted second zero word p h = λ j a n. absurd (ground arith)
scan-Attempted second (suc words) word p h =
    let here : IsFirst (word * 64) (word * 64 + 64) p.used (first_clear 64 (word * 64) p) =
      first_clear-IsFirst 64 (word * 64) p in
    let rest = scan-Attempted second words (word + 1) p (ground arith) in
    checked-Attempted second (word * 64) (word * 64 + 64) p (first_clear 64 (word * 64) p)
      (scan second words (word + 1) p) (ground arith) here
      (Attempted-later second ((word + 1) * 64) (word * 64 + 64) p (scan second words (word + 1) p)
        (omega arith) rest)

-- What `allocate_page` leaves: its page was free and is taken, or every page is used.
abbrev pub Answered : Pages → Option ℕ × Pages → Type 0
Answered p (none, p') = (p' ≡ p) × AllUsed 0 p.total p.used
Answered p (some i, p') =
    (i < p.total)
    × (p.used i ≡ false)
    × (p'.total ≡ p.total)
    × (p'.used ≡ set_bit i p.used)
    × (p'.used_pages ≡ p.used_pages + 1)
    × (p'.search_hint ≡ i + 1)

second_attempt-Answered :
    (start : ℕ) (p : Pages) (found : Option ℕ)
    → start ≤ p.search_hint
    → Attempted false start p none
    → Attempted true 0 p found
    → Answered p (taken p found)
second_attempt-Answered start p none a f h = (
  refl,
  λ j b c. elim (Bool-cases (ltb j p.search_hint)) [
    | inl l ↦ h j b (ground arith)
    | inr l ↦ f j (ground arith) (ground arith)
  ],
)
second_attempt-Answered start p (some i) a f h = (ground arith, h.0, refl, refl, refl, refl)

attempts-Answered :
    (start : ℕ) (p : Pages) (found : Option ℕ)
    → start ≤ p.search_hint
    → Attempted false start p found
    → Answered p (taken p (attempt_after p found))
attempts-Answered start p none a f =
    second_attempt-Answered start p (scan true (bitmap_words p) 0 p) a f
      (scan-Attempted true (bitmap_words p) 0 p (ground arith))
attempts-Answered start p (some i) a f = (ground arith, f.0, refl, refl, refl, refl)

-- The search for one page: it fails only when all pages are used, and the state is then left as it was;
-- otherwise its page was free, is one of the pages there are, and is all that is taken.
pub allocate_page-Answered : (p : Pages) → Answered p (allocate_page p)
unfolding allocate_page
allocate_page-Answered p =
    let start = p.search_hint / 64 in
    attempts-Answered (start * 64) p (scan false (bitmap_words p - start) start p) (omega arith)
      (scan-Attempted false (bitmap_words p - start) start p (omega arith))

Answered-IsValid : (p : Pages) (r : Option ℕ × Pages) → Answered p r → IsValid p → IsValid r.1
Answered-IsValid p (none, p') a v = rw (a.0) v
Answered-IsValid p (some i, p') a v = record {
  small = rw (a.2) v.small;
  counted = rw (a.4, a.2, a.3) (take_page-IsValid i p a.1 a.0 v).counted;
}

-- A valid allocator stays valid when it hands out a page.
pub allocate_page-IsValid : (p : Pages) → IsValid p → IsValid ((allocate_page p).1)
allocate_page-IsValid p v = Answered-IsValid p (allocate_page p) (allocate_page-Answered p) v

cleared-Answered :
    (p : Pages) (r : Option ℕ × Pages) (memory : ℕ → ℕ) (address : ℕ)
    → Answered p r
    → p.used (address / page_size) ≡ true
    → (cleared r memory).1 address ≡ memory address
cleared-Answered p (none, p') memory address a u = refl
cleared-Answered p (some i, p') memory address a u =
    let apart : (address / page_size == i) ≡ false = ground (arith, a.1, u) in rw (apart) refl

-- Zeroing a new page writes no byte of a page that was in use.
pub allocate_zeroed_page_lem :
    (p : Pages) (memory : ℕ → ℕ) (address : ℕ)
    → p.used (address / page_size) ≡ true
    → (allocate_zeroed_page p memory).1 address ≡ memory address
unfolding allocate_zeroed_page
allocate_zeroed_page_lem p memory address u =
    cleared-Answered p (allocate_page p) memory address (allocate_page-Answered p) u

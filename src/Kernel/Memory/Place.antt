-- ===== src/Kernel/Memory/Place.antt =====
-- kernel/mm/physical.cpp: the search for the place of the bitmap.
use shit_os.Prelude.{
  ℕ, zero, suc, ◌+◌, ◌*◌, ◌/◌, ◌%◌, ◌^◌, ◌≤◌, ◌<◌, ◌≡◌, refl, arith, false, not, ◌||◌, Option, none,
  some, List, [], ◌∷◌, max, leb, ltb, if◌then◌else◌, Bool-cases, inl, inr,
}
use shit_os.Kernel.Memory.Physical.{page_size}
use shit_os.Kernel.Memory.Initialize.{
  MemoryRegion, candidate_from, candidate_in, align_page, first_megabyte, region_end,
  range_is_clear, is_usable, highest_usable, or_next, place_bitmap,
}

-- a place with its bytes, if there is one, ends by an address
abbrev pub EndsBy : ℕ → ℕ → Option ℕ → Type 0
EndsBy end bytes none = Unit {0}
EndsBy end bytes (some place) = place + bytes ≤ end

-- Rounds beyond the end of the region change nothing.
pub candidate_from-enough :
    (rounds extra : ℕ) (info : List MemoryRegion) (bytes end candidate : ℕ)
    → bytes ≤ 2 ^ 53
    → candidate ≤ 2 ^ 53
    → end ≤ 2 ^ 52
    → end < candidate + rounds * page_size
    → candidate_from (rounds + extra) info bytes end candidate
      ≡ candidate_from rounds info bytes end candidate
unfolding candidate_from
candidate_from-enough zero extra info bytes end candidate few near below h = nothing extra
  where
    nothing : (extra : ℕ) → candidate_from (0 + extra) info bytes end candidate ≡ none
    nothing zero = refl
    nothing (suc extra) =
        let over : leb ((candidate + bytes) % 2 ^ 64) end ≡ false = ground arith in
        let units : 0 + suc extra ≡ suc extra = omega arith in rw (units, over) refl
candidate_from-enough (suc rounds) extra info bytes end candidate few near below h =
    let units : suc rounds + extra ≡ suc (rounds + extra) = omega arith in
    let sum : (candidate + bytes) % 2 ^ 64 ≡ candidate + bytes = omega arith in
    let next : (candidate + page_size) % 2 ^ 64 ≡ candidate + page_size = omega arith in
    elim (Bool-cases (leb (candidate + bytes) end)) [
      | inl e ↦
          let rest =
            candidate_from-enough rounds extra info bytes end (candidate + page_size) few
              (ground arith) below (omega arith) in
          rw (units, next, rest) refl
      | inr e ↦ rw (units, sum, e) refl
    ]

-- What the search of a region finds ends by the end of the region.
pub candidate_from-below :
    (rounds : ℕ) (info : List MemoryRegion) (bytes end candidate : ℕ)
    → bytes ≤ 2 ^ 53
    → candidate ≤ 2 ^ 53
    → end ≤ 2 ^ 52
    → EndsBy end bytes (candidate_from rounds info bytes end candidate)
unfolding candidate_from
candidate_from-below zero info bytes end candidate few near below = tt
candidate_from-below (suc rounds) info bytes end candidate few near below =
    let sum : (candidate + bytes) % 2 ^ 64 ≡ candidate + bytes = omega arith in
    let next : (candidate + page_size) % 2 ^ 64 ≡ candidate + page_size = omega arith in
    elim (Bool-cases (leb (candidate + bytes) end)) [
      | inr e ↦ rw (sum, e) tt
      | inl e ↦ elim (Bool-cases (range_is_clear info candidate bytes)) [
        | inl c ↦ rw (sum, e, c) (ground arith)
        | inr c ↦
            rw (sum, next, e, c)
              (candidate_from-below rounds info bytes end (candidate + page_size) few (ground arith)
                below)
      ]
    ]

-- all regions end by 2^52, which no physical address of the machine reaches
unfoldable pub AreAddresses : List MemoryRegion → Type 0
AreAddresses [] = Unit {0}
AreAddresses (r ∷ info) = (r.base + r.length ≤ 2 ^ 52) × AreAddresses info

pub highest_usable-below :
    (info : List MemoryRegion) (highest : ℕ)
    → highest ≤ 2 ^ 52
    → AreAddresses info
    → highest_usable info highest ≤ 2 ^ 52
unfolding highest_usable AreAddresses
highest_usable-below [] highest below all = below
highest_usable-below (r ∷ info) highest below all =
    let end : region_end r ≤ 2 ^ 52 = omega (arith, all.0) in
    highest_usable-below info (if is_usable r.kind then max highest (region_end r) else highest)
      (ground (arith, end, below)) all.1

or_next-EndsBy :
    (end bytes : ℕ) (first second : Option ℕ)
    → EndsBy end bytes first
    → EndsBy end bytes second
    → EndsBy end bytes (or_next first second)
or_next-EndsBy end bytes none second a b = b
or_next-EndsBy end bytes (some place) second a b = a

EndsBy-later :
    (end end' bytes : ℕ) (place : Option ℕ)
    → end ≤ end'
    → EndsBy end bytes place
    → EndsBy end' bytes place
EndsBy-later end end' bytes none le a = tt
EndsBy-later end end' bytes (some place) le a = omega (arith, le, a)

-- The place of the bitmap ends by 2^52.
pub place_bitmap-below :
    (info : List MemoryRegion) (bytes : ℕ) (rest : List MemoryRegion)
    → bytes ≤ 2 ^ 53
    → AreAddresses rest
    → EndsBy (2 ^ 52) bytes (place_bitmap info bytes rest)
unfolding place_bitmap AreAddresses
place_bitmap-below info bytes [] few all = tt
place_bitmap-below info bytes (r ∷ rest) few all =
    let later = place_bitmap-below info bytes rest few all.1 in
    let end : region_end r ≤ 2 ^ 52 = omega (arith, all.0) in
    elim (Bool-cases (not (is_usable r.kind) || ltb r.length bytes)) [
      | inl e ↦ rw (e) later
      | inr e ↦ rw (e) (
          or_next-EndsBy (2 ^ 52) bytes (candidate_in info bytes r) (place_bitmap info bytes rest)
            (EndsBy-later (region_end r) (2 ^ 52) bytes (candidate_in info bytes r) end (
              candidate_from-below (r.length / page_size + 1) info bytes (region_end r)
                (align_page (max r.base first_megabyte)) few (ground (arith, all.0)) end))
            later)
    ]

-- The rounds that a region is given are enough.
pub candidate_in-enough :
    (extra : ℕ) (info : List MemoryRegion) (bytes : ℕ) (r : MemoryRegion)
    → bytes ≤ 2 ^ 53
    → r.base + r.length ≤ 2 ^ 52
    → candidate_from
        (r.length / page_size + 1 + extra)
        info
        bytes
        (region_end r)
        (align_page (max r.base first_megabyte))
      ≡ candidate_in info bytes r
candidate_in-enough extra info bytes r few below =
    candidate_from-enough (r.length / page_size + 1) extra info bytes (region_end r)
      (align_page (max r.base first_megabyte)) few (ground (arith, below)) (ground (arith, below))
      (ground (arith, below))

-- ===== src/Kernel/Memory/Physical.antt =====
-- kernel/mm/physical.cpp: the page allocator. The bitmap is a function from page numbers to bits; an
-- address is a page number, but in `apply_to_range` and `free_contiguous`. The lock is left out: each
-- operation holds it from end to end. `none` as the state after a free is the panic.
use shit_os.Prelude.{
  ℕ, zero, suc, ◌+◌, ◌-◌, ◌*◌, ◌/◌, ◌%◌, ◌^◌, Bool, true, false, not, ◌&&◌, ◌||◌, Option, none,
  some, min, ltb, leb, ◌==◌, if◌then◌else◌,
}

-- PAGE_SIZE
abbrev pub page_size : ℕ
page_size = 4096

-- `s_bitmap`, `s_total_pages`, `s_used_pages` and `s_search_hint`
pub record Pages : Type 0 where
  pub used : ℕ → Bool
  pub total : ℕ
  pub used_pages : ℕ
  pub search_hint : ℕ

abbrev pub set_bit : ℕ → (ℕ → Bool) → ℕ → Bool
set_bit index used i = if i == index then true else used i

abbrev pub clear_bit : ℕ → (ℕ → Bool) → ℕ → Bool
clear_bit index used i = if i == index then false else used i

abbrev pub take_page : ℕ → Pages → Pages
take_page i p = record p { used = set_bit i p.used; used_pages = p.used_pages + 1 }

abbrev pub give_page : ℕ → Pages → Pages
give_page i p = record p { used = clear_bit i p.used; used_pages = p.used_pages - 1 }

-- the loops, on their count and their first page
unfoldable pub mark_used : ℕ → ℕ → Pages → Pages
mark_used zero i p = p
mark_used (suc count) i p =
    let next = mark_used count (i + 1) (if p.used i then p else take_page i p) in
    if ltb i p.total then next else p

unfoldable pub mark_free : ℕ → ℕ → Pages → Pages
mark_free zero i p = p
mark_free (suc count) i p =
    let next = mark_free count (i + 1) (if p.used i then give_page i p else p) in
    if ltb i p.total then next else p

-- Both roundings of the range go outward; the sums are of 64 bits. A count below 0 wraps, and so does the sum
-- that ends the loops: no page is touched, as for 0.
unfoldable pub apply_to_range : ℕ → ℕ → (ℕ → ℕ → Pages → Pages) → Pages → Pages
apply_to_range base length operation p =
    let first = base / page_size in
    let last = ((base + length) % 2 ^ 64 + (page_size - 1)) % 2 ^ 64 / page_size in
    if length == 0
    then p
    else if leb p.total first
    then p
    else operation (min last p.total - first) first p

-- the first clear bit of a word: of so many bits from a place
unfoldable pub first_clear : ℕ → ℕ → Pages → Option ℕ
first_clear zero i p = none
first_clear (suc bits) i p =
    let more = first_clear bits (i + 1) p in if p.used i then more else some i

-- does the search stop at this page? The second attempt stops at the hint.
abbrev pub stops : Bool → ℕ → Pages → Bool
stops second i p = leb p.total i || (second && leb p.search_hint i)

abbrev pub checked : Bool → Pages → Option ℕ → Option ℕ → Option ℕ
checked second p none more = more
checked second p (some i) more = if stops second i p then none else some i

-- one attempt, over so many words from a word
unfoldable pub scan : Bool → ℕ → ℕ → Pages → Option ℕ
scan second zero word p = none
scan second (suc words) word p =
    checked second p (first_clear 64 (word * 64) p) (scan second words (word + 1) p)

abbrev pub bitmap_words : Pages → ℕ
bitmap_words p = (p.total + 63) / 64

abbrev pub attempt_after : Pages → Option ℕ → Option ℕ
attempt_after p none = scan true (bitmap_words p) 0 p
attempt_after p (some i) = some i

abbrev pub taken : Pages → Option ℕ → Option ℕ × Pages
taken p none = (none, p)
taken p (some i) = (some i, record (take_page i p) { search_hint = i + 1 })

-- `none` is ENOMEM.
unfoldable pub allocate_page : Pages → Option ℕ × Pages
allocate_page p =
    let start = p.search_hint / 64 in
    taken p (attempt_after p (scan false (bitmap_words p - start) start p))

-- the loop of `allocate_contiguous`, with its run so far
unfoldable pub find_run : ℕ → ℕ → ℕ → ℕ → ℕ → Pages → Option ℕ
find_run count zero index run_start run_length p = none
find_run count (suc rounds) index run_start run_length p =
    let start = if p.used index then run_start else if run_length == 0 then index else run_start in
    let length = if p.used index then 0 else run_length + 1 in
    let more = find_run count rounds (index + 1) start length p in
    if not (p.used index) && (length == count) then some start else more

abbrev pub run_taken : ℕ → Pages → Option ℕ → Option ℕ × Pages
run_taken count p none = (none, p)
run_taken count p (some start) = (some start, mark_used count start p)

-- EINVAL, for a count of 0, and ENOMEM are both `none`.
unfoldable pub allocate_contiguous : ℕ → Pages → Option ℕ × Pages
allocate_contiguous count p =
    if count == 0
    then (none, p)
    else if count == 1
    then allocate_page p
    else run_taken count p (find_run count p.total 0 0 0 p)

-- the loop of `free_contiguous`
unfoldable pub free_loop : ℕ → ℕ → Pages → Option Pages
free_loop zero i p = some p
free_loop (suc count) i p =
    let next = free_loop count (i + 1) (give_page i p) in
    if ltb i p.total then (if p.used i then next else none) else some p

abbrev pub hint_lowered : ℕ → Option Pages → Option Pages
hint_lowered first none = none
hint_lowered first (some p) = some (record p { search_hint = min p.search_hint first })

-- the loop ends where first + count, a sum of 64 bits, does
unfoldable pub free_contiguous : ℕ → ℕ → Pages → Option Pages
free_contiguous base count p =
    let first = base / page_size in
    let rounds = (first + count) % 2 ^ 64 - first in
    if leb p.total first then some p else hint_lowered first (free_loop rounds first p)

unfoldable pub free_page : ℕ → Pages → Option Pages
free_page page p = free_contiguous page 1 p

unfoldable pub reserve_range : ℕ → ℕ → Pages → Pages
reserve_range base length p = apply_to_range base length mark_used p

-- a page of memory, by byte, filled with zeros
abbrev pub page_cleared : ℕ → (ℕ → ℕ) → ℕ → ℕ
page_cleared page memory address = if address / page_size == page then 0 else memory address

abbrev pub cleared : Option ℕ × Pages → (ℕ → ℕ) → (Option ℕ × Pages) × (ℕ → ℕ)
cleared (none, p) memory = ((none, p), memory)
cleared (some page, p) memory = ((some page, p), page_cleared page memory)

unfoldable pub allocate_zeroed_page : Pages → (ℕ → ℕ) → (Option ℕ × Pages) × (ℕ → ℕ)
allocate_zeroed_page p memory = cleared (allocate_page p) memory

abbrev pub free_pages : Pages → ℕ
free_pages p = p.total - p.used_pages

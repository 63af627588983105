-- ===== src/Kernel/Memory/Initialize.antt =====
-- kernel/mm/physical.cpp: starting the allocator from the memory map. Addresses and their sums have 64 bits.
-- `none` as the state is the panic; the log line is left out.
use shit_os.Prelude.{
  ℕ, zero, suc, ◌+◌, ◌-◌, ◌*◌, ◌/◌, ◌%◌, ◌^◌, Bool, true, false, not, ◌&&◌, ◌||◌, Option, none,
  some, List, [], ◌∷◌, max, ltb, leb, if◌then◌else◌,
}
use shit_os.Kernel.Memory.Physical.{Pages, page_size, mark_used, mark_free, apply_to_range}

-- boot::MemoryKind
pub data MemoryKind : Type 0 where
  usable : MemoryKind
  reserved : MemoryKind
  acpi_reclaimable : MemoryKind
  acpi_nvs : MemoryKind
  bad : MemoryKind
  kernel_image : MemoryKind
  boot_module : MemoryKind

pub record MemoryRegion : Type 0 where
  pub base : ℕ
  pub length : ℕ
  pub kind : MemoryKind

abbrev pub is_usable : MemoryKind → Bool
is_usable usable = true
is_usable kind = false

abbrev pub is_occupied : MemoryKind → Bool
is_occupied kernel_image = true
is_occupied boot_module = true
is_occupied kind = false

abbrev pub first_megabyte : ℕ
first_megabyte = 1048576

abbrev pub align_page : ℕ → ℕ
align_page value = (value + (page_size - 1)) % 2 ^ 64 / page_size * page_size

abbrev pub region_end : MemoryRegion → ℕ
region_end r = (r.base + r.length) % 2 ^ 64

abbrev pub meets : ℕ → ℕ → MemoryRegion → Bool
meets base length r =
    is_occupied r.kind && (ltb base (region_end r) && ltb r.base ((base + length) % 2 ^ 64))

unfoldable pub range_is_clear : List MemoryRegion → ℕ → ℕ → Bool
range_is_clear [] base length = leb first_megabyte base
range_is_clear (r ∷ info) base length = not (meets base length r) && range_is_clear info base length

unfoldable pub highest_usable : List MemoryRegion → ℕ → ℕ
highest_usable [] highest = highest
highest_usable (r ∷ info) highest =
    highest_usable info (if is_usable r.kind then max highest (region_end r) else highest)

-- the loop over the candidates of a region, on fuel
unfoldable pub candidate_from : ℕ → List MemoryRegion → ℕ → ℕ → ℕ → Option ℕ
candidate_from zero info bytes end candidate = none
candidate_from (suc rounds) info bytes end candidate =
    let later = candidate_from rounds info bytes end ((candidate + page_size) % 2 ^ 64) in
    if leb ((candidate + bytes) % 2 ^ 64) end
    then (if range_is_clear info candidate bytes then some candidate else later)
    else none

abbrev pub or_next : Option ℕ → Option ℕ → Option ℕ
or_next none next = next
or_next (some place) next = some place

-- A region of so many bytes has no more candidates than pages.
abbrev pub candidate_in : List MemoryRegion → ℕ → MemoryRegion → Option ℕ
candidate_in info bytes r =
    candidate_from (r.length / page_size + 1) info bytes (region_end r)
      (align_page (max r.base first_megabyte))

-- the search of the regions, each against the whole map
unfoldable pub place_bitmap : List MemoryRegion → ℕ → List MemoryRegion → Option ℕ
place_bitmap info bytes [] = none
place_bitmap info bytes (r ∷ rest) =
    let next = place_bitmap info bytes rest in
    if not (is_usable r.kind) || ltb r.length bytes
    then next
    else or_next (candidate_in info bytes r) next

-- a loop that applies an operation to the regions of some kinds
unfoldable pub apply_to_regions :
    (MemoryKind → Bool) → (ℕ → ℕ → Pages → Pages) → List MemoryRegion → Pages → Pages
apply_to_regions chosen operation [] p = p
apply_to_regions chosen operation (r ∷ info) p =
    apply_to_regions chosen operation info
      (if chosen r.kind then apply_to_range r.base r.length operation p else p)

abbrev pub all_taken : ℕ → Pages
all_taken total = record { used = λ i. true; total = total; used_pages = total; search_hint = 0 }

abbrev pub pages_from : List MemoryRegion → ℕ → ℕ → ℕ → Pages
pages_from info total bytes bitmap =
    let returned = apply_to_regions is_usable mark_free info (all_taken total) in
    let carved = apply_to_regions is_occupied mark_used info returned in
    let placed = apply_to_range bitmap bytes mark_used carved in
    apply_to_range 0 page_size mark_used placed

abbrev pub started : List MemoryRegion → ℕ → ℕ → Option ℕ → Option Pages
started info total bytes none = none
started info total bytes (some bitmap) = some (pages_from info total bytes bitmap)

unfoldable pub physical_initialize : List MemoryRegion → Option Pages
physical_initialize info =
    let total = align_page (highest_usable info 0) / page_size in
    let bytes = (total + 63) / 64 * 8 in started info total bytes (place_bitmap info bytes info)

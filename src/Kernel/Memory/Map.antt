-- ===== src/Kernel/Memory/Map.antt =====
-- kernel/mm/physical.cpp: the bitmap that `physical_initialize` leaves.
use shit_os.Prelude.{
  ℕ, zero, suc, ◌+◌, ◌*◌, ◌/◌, ◌^◌, ◌≤◌, ◌<◌, ◌≡◌, ◌∙◌, refl, arith, Bool, true, false, not, ◌&&◌,
  ◌||◌, Option, none, some, List, [], ◌∷◌, ltb, leb, ◌==◌, if◌then◌else◌, Bool-cases, inl, inr,
}
use shit_os.Kernel.Memory.Physical.{Pages, page_size, mark_used, mark_free, apply_to_range}
use shit_os.Kernel.Memory.Initialize.{
  MemoryKind, MemoryRegion, is_usable, is_occupied, highest_usable, place_bitmap, apply_to_regions,
  all_taken, pages_from, started, align_page, physical_initialize,
}
use shit_os.Kernel.Memory.Place.{EndsBy, AreAddresses, highest_usable-below, place_bitmap-below}
use shit_os.Kernel.Memory.Count.{IsValid, Marked, in_use}
use shit_os.Kernel.Memory.Ranges.{covered, reserve-Marked, return-Marked}

-- does a range overlap a page?
abbrev pub overlaps : ℕ → ℕ → ℕ → Bool
overlaps base length j = leb (base / page_size) j && ltb j (base / page_size + covered base length)

-- does some region of the chosen kinds?
unfoldable pub covers : (MemoryKind → Bool) → List MemoryRegion → ℕ → Bool
covers chosen [] j = false
covers chosen (r ∷ info) j = (chosen r.kind && overlaps r.base r.length j) || covers chosen info j

record Covered (bit : Bool) (chosen : MemoryKind → Bool) (info : List MemoryRegion) (p p' : Pages)
    : Type 0 where
  valid : IsValid p'
  total : p'.total ≡ p.total
  bits : (j : ℕ) → p'.used j ≡ (if covers chosen info j && ltb j p.total then bit else p.used j)

apply_to_regions-Covered :
    (bit : Bool) (chosen : MemoryKind → Bool) (operation : ℕ → ℕ → Pages → Pages)
    (info : List MemoryRegion) (p : Pages)
    → ((base length : ℕ) (q : Pages)
        → base + length + page_size ≤ 2 ^ 64
        → IsValid q
        → Marked bit
            (base / page_size)
            (covered base length)
            q
            (apply_to_range base length operation q))
    → AreAddresses info
    → IsValid p
    → Covered bit chosen info p (apply_to_regions chosen operation info p)
unfolding apply_to_regions covers AreAddresses
apply_to_regions-Covered bit chosen operation [] p h all v = record {
  valid = v;
  total = refl;
  bits = λ j. refl;
}
apply_to_regions-Covered bit chosen operation (r ∷ info) p h all v =
    elim (Bool-cases (chosen r.kind)) [
      | inl e ↦
          let first = h r.base r.length p (omega (arith, all.0)) v in
          let rest =
            apply_to_regions-Covered bit chosen operation info
              (apply_to_range r.base r.length operation p) h all.1 first.valid in
          rw (e) record {
            valid = rest.valid;
            total = rest.total ∙ first.total;
            bits = λ j. rest.bits j ∙ rw (first.bits j, first.total) (ground arith);
          }
      | inr e ↦
          let rest = apply_to_regions-Covered bit chosen operation info p h all.1 v in
          rw (e)
            record { valid = rest.valid; total = rest.total; bits = λ j. rest.bits j ∙ rw (e) refl }
    ]

in_use-all : (n : ℕ) → in_use n (λ i. true) ≡ n
unfolding in_use
in_use-all zero = refl
in_use-all (suc n) = rw (in_use-all n) (omega arith)

-- the bitmap, page by page
pub record IsMapped (info : List MemoryRegion) (total bytes bitmap : ℕ) (p : Pages) : Type 0 where
  pub valid : IsValid p
  pub managed : p.total ≡ total
  pub bits :
      (j : ℕ)
      → j < total
      → p.used j ≡ (
          not (covers is_usable info j)
          || (covers is_occupied info j || (overlaps bitmap bytes j || (j == 0))))

pages_from-IsMapped :
    (info : List MemoryRegion) (total bytes bitmap : ℕ)
    → total < 2 ^ 64
    → bitmap + bytes ≤ 2 ^ 52
    → AreAddresses info
    → IsMapped info total bytes bitmap (pages_from info total bytes bitmap)
pages_from-IsMapped info total bytes bitmap small below all =
    let start : IsValid (all_taken total) = record {
      small = small;
      counted = ground (arith, in_use-all total);
    } in
    let returned =
      apply_to_regions-Covered false is_usable mark_free info (all_taken total) return-Marked all
        start in
    let carved =
      apply_to_regions-Covered true is_occupied mark_used info
        (apply_to_regions is_usable mark_free info (all_taken total)) reserve-Marked all
        returned.valid in
    let placed =
      reserve-Marked bitmap bytes
        (apply_to_regions is_occupied mark_used info
          (apply_to_regions is_usable mark_free info (all_taken total)))
        (omega (arith, below)) carved.valid in
    let first =
      reserve-Marked 0 page_size
        (apply_to_range bitmap bytes mark_used (
          apply_to_regions is_occupied mark_used info
            (apply_to_regions is_usable mark_free info (all_taken total))))
        (omega arith) placed.valid in
    record {
      valid = first.valid;
      managed = first.total ∙ placed.total ∙ carved.total ∙ returned.total;
      bits = λ j h.
          first.bits j
          ∙ rw
              (
                placed.total,
                placed.bits j,
                carved.total,
                carved.bits j,
                returned.total,
                returned.bits j,
              )
              (ground arith);
    }

-- what starting leaves, or that no place for the bitmap was found
abbrev pub IsStarted : List MemoryRegion → ℕ → ℕ → Option ℕ → Option Pages → Type 0
IsStarted info total bytes none p = p ≡ none
IsStarted info total bytes (some bitmap) none = ⊥
IsStarted info total bytes (some bitmap) (some p) = IsMapped info total bytes bitmap p

started-IsStarted :
    (info : List MemoryRegion) (total bytes : ℕ) (place : Option ℕ)
    → total < 2 ^ 64
    → EndsBy (2 ^ 52) bytes place
    → AreAddresses info
    → IsStarted info total bytes place (started info total bytes place)
started-IsStarted info total bytes none small below all = refl
started-IsStarted info total bytes (some bitmap) small below all =
    pages_from-IsMapped info total bytes bitmap small below all

-- For a map whose regions all end by 2^52: `physical_initialize` panics only when no place for the bitmap is found;
-- otherwise it manages the pages up to the end of usable memory, its count of used pages is that of the bitmap,
-- and a page is free just when it overlaps a usable region and is not page 0, nor overlaps the kernel, a boot
-- module or the bitmap. So a page that a usable region covers only in part is free as well, where a comment in
-- the code says that it never is.
pub physical_initialize-IsStarted :
    (info : List MemoryRegion)
    → AreAddresses info
    → let total = align_page (highest_usable info 0) / page_size in
      let bytes = (total + 63) / 64 * 8 in
      IsStarted info total bytes (place_bitmap info bytes info) (physical_initialize info)
unfolding physical_initialize
physical_initialize-IsStarted info all =
    let total = align_page (highest_usable info 0) / page_size in
    let bytes = (total + 63) / 64 * 8 in
    let high = highest_usable-below info 0 (omega arith) all in
    started-IsStarted info total bytes (place_bitmap info bytes info) (omega (arith, high))
      (place_bitmap-below info bytes info (omega (arith, high)) all) all

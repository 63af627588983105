-- ===== src/Kernel/Heap/Aligned.antt =====
-- kernel/mm/heap.cpp: the allocations of whole pages, whose records are themselves allocated
-- with kmalloc. `none` is a panic. The source takes the lock for each part of these operations, and no other
-- call runs between the parts here.
use shit_os.Prelude.{
  ℕ, ◌+◌, ◌-◌, ◌*◌, ◌/◌, ◌%◌, ◌^◌, Bool, Option, none, some, List, [], ◌∷◌, ltb, leb, ◌==◌,
  if◌then◌else◌,
}
use shit_os.Kernel.Memory.Physical.{Pages, page_size, allocate_contiguous, free_contiguous}
use shit_os.Kernel.Heap.Alloc.{
  Heap, header_size, word, put, div_round_up, with_pages, kmalloc, kfree,
}

-- AlignedAllocation, with the pointer to it
pub record AlignedAllocation : Type 0 where
  pub at : ℕ
  pub address : ℕ
  pub pages : ℕ

-- the heap with `s_aligned_buckets`
pub record AlignedHeap : Type 0 where
  pub heap : Heap
  pub buckets : ℕ → List AlignedAllocation

abbrev pub bucket_of : ℕ → ℕ
bucket_of address = address / 2 ^ 12 % 64

-- sizeof(AlignedAllocation)
abbrev pub record_size : ℕ
record_size = 24

abbrev pub unreserved : Option Heap → AlignedHeap → Option (Option ℕ × AlignedHeap)
unreserved none s = none
unreserved (some h) s = some (none, record s { heap = h })

abbrev pub counted_in : ℕ → Heap → Heap
counted_in pages h = record h {
  bytes_in_use = word (h.bytes_in_use + pages * page_size);
  bytes_reserved = word (h.bytes_reserved + pages * page_size);
}

-- after the record is allocated, or not
abbrev pub recorded_at : ℕ → ℕ → Option ℕ × Heap → AlignedHeap → Option (Option ℕ × AlignedHeap)
recorded_at address pages (none, h) s =
    unreserved (with_pages h (free_contiguous address pages h.pages)) s
recorded_at address pages (some at, h) s = some (
  some address,
  record s {
    heap = counted_in pages h;
    buckets =
        put (bucket_of address)
          (record { at = at; address = address; pages = pages } ∷ s.buckets (bucket_of address))
          s.buckets;
  },
)

abbrev pub pages_taken : ℕ → Option ℕ × Pages → AlignedHeap → Option (Option ℕ × AlignedHeap)
pages_taken pages (none, p) s = some (none, record s { heap = record s.heap { pages = p } })
pages_taken pages (some page, p) s =
    recorded_at (page * page_size) pages (kmalloc record_size (record s.heap { pages = p })) s

abbrev pub from_kmalloc : Option ℕ × Heap → AlignedHeap → Option (Option ℕ × AlignedHeap)
from_kmalloc (answer, h) s = some (answer, record s { heap = h })

unfoldable pub kmalloc_aligned : ℕ → ℕ → AlignedHeap → Option (Option ℕ × AlignedHeap)
kmalloc_aligned size alignment s =
    let pages = div_round_up size page_size in
    if size == 0
    then some (none, s)
    else if leb alignment header_size
    then from_kmalloc (kmalloc size s.heap) s
    else if ltb page_size alignment
    then none
    else pages_taken pages (allocate_contiguous pages s.heap.pages) s

abbrev pub is_at : ℕ → AlignedAllocation → Bool
is_at pointer r = r.address == pointer

abbrev pub kept_before :
    AlignedAllocation
    → Option (AlignedAllocation × List AlignedAllocation)
    → Option (AlignedAllocation × List AlignedAllocation)
kept_before r none = none
kept_before r (some (found, rest)) = some (found, r ∷ rest)

-- the record of an address in its bucket, and the bucket without it
unfoldable pub unlinked :
    ℕ → List AlignedAllocation → Option (AlignedAllocation × List AlignedAllocation)
unlinked pointer [] = none
unlinked pointer (r ∷ records) =
    let rest = kept_before r (unlinked pointer records) in
    if is_at pointer r then some (r, records) else rest

abbrev pub counted_out : ℕ → Heap → Heap
counted_out pages h = record h {
  bytes_in_use = word (h.bytes_in_use + 2 ^ 64 - word (pages * page_size));
  bytes_reserved = word (h.bytes_reserved + 2 ^ 64 - word (pages * page_size));
}

abbrev pub with_heap : Option Heap → (ℕ → List AlignedAllocation) → Option AlignedHeap
with_heap none buckets = none
with_heap (some h) buckets = some (record { heap = h; buckets = buckets })

abbrev pub record_freed : ℕ → Option Heap → (ℕ → List AlignedAllocation) → Option AlignedHeap
record_freed at none buckets = none
record_freed at (some h) buckets = with_heap (kfree at h) buckets

abbrev pub unlinked_freed :
    ℕ → Option (AlignedAllocation × List AlignedAllocation) → AlignedHeap → Option AlignedHeap
unlinked_freed pointer none s = none
unlinked_freed pointer (some (r, rest)) s =
    let h = counted_out r.pages s.heap in
    record_freed r.at (with_pages h (free_contiguous pointer r.pages h.pages))
      (put (bucket_of pointer) rest s.buckets)

-- of a pointer, or of null
unfoldable pub kfree_aligned : Option ℕ → AlignedHeap → Option AlignedHeap
kfree_aligned none s = some s
kfree_aligned (some pointer) s =
    unlinked_freed pointer (unlinked pointer (s.buckets (bucket_of pointer))) s

-- ===== src/Kernel/Heap/PageAligned.antt =====
-- kernel/mm/heap.cpp: what kmalloc_aligned gives and kfree_aligned frees.
use shit_os.Prelude.{
  ℕ, ◌+◌, ◌*◌, ◌/◌, ◌%◌, ◌^◌, ◌≤◌, ◌<◌, ◌≡◌, ◌∙◌, refl, sym, ap, arith, false, Option, none, some,
  List, [], ◌∷◌, ◌++◌, ◌≢◌, ◌⊎◌, inl, inr, true, ltb, leb, ◌==◌,
}
use mathlib.Core.Path.{subst}
use shit_os.Kernel.Memory.Physical.{Pages, page_size, allocate_contiguous, free_contiguous}
use shit_os.Kernel.Memory.Release.{IsRestored, Marked-Restored, free_contiguous-Released}
use shit_os.Kernel.Memory.Count.{Marked}
use shit_os.Kernel.Memory.Contiguous.{IsRun, Reserved, allocate_contiguous-Reserved}
use shit_os.Kernel.Heap.Alloc.{Heap, header_size, div_round_up, put, kmalloc}
use shit_os.Kernel.Heap.Bytes.{covers_self}
use shit_os.Kernel.Heap.Refill.{IsApart, Keeps}
use shit_os.Kernel.Heap.Blocks.{
  with_block, extent, header_for, IsPlace, put_here, unchanged-IsApart, reserved-IsApart,
}
use shit_os.Kernel.Heap.Give.{HandedOut, NoRoom, Allocated, kmalloc-Allocated}
use shit_os.Kernel.Heap.Free.{Freed, Returned, pages-Freed, kfree-Freed}
use shit_os.Kernel.Heap.Aligned.{
  AlignedAllocation, AlignedHeap, bucket_of, record_size, unreserved, recorded_at, pages_taken,
  kmalloc_aligned, counted_out, unlinked, kfree_aligned,
}

-- why no pages are given: there is no run of them, or with a run taken there is no room for the record of it
abbrev pub NoPages : ℕ → Heap → Type 0
NoPages count h =
    IsRun count 0 h.pages.total h.pages.used none
    ⊎ ((page : ℕ) × (p : Pages) × Reserved count h.pages (some page, p)
        × NoRoom record_size (record h { pages = p }))

-- With its pages and the record of them, apart from the other allocations, or with all as it was
pub AlignedGiven : ℕ → (ℕ → ℕ) → AlignedHeap → Option (Option ℕ × AlignedHeap) → Type 0
AlignedGiven size live s none = ⊥
AlignedGiven size live s (some (none, s')) =
    NoPages (div_round_up size page_size) s.heap
    × IsRestored s.heap.pages s'.heap.pages
    × (s'.heap.free_lists ≡ s.heap.free_lists)
    × IsApart live s'.heap
    × Keeps live s.heap s'.heap
    × (s'.buckets ≡ s.buckets)
AlignedGiven size live s (some (some address, s')) =
    (count : ℕ) × (b : ℕ) × (size ≤ count * page_size)
    × (address % page_size ≡ 0)
    × (s'.buckets (bucket_of address)
        ≡ record { at = b + header_size; address = address; pages = count }
          ∷ s.buckets (bucket_of address))
    × HandedOut b record_size (with_block address (count * page_size) live) s.heap s'.heap

same_pages-IsRestored : (p q : Pages) → q ≡ p → IsRestored p q
same_pages-IsRestored p q same = record {
  total = ap (λ (x : Pages). x.total) same;
  bits = λ j. ap (λ (x : Pages). x.used j) same;
  counted = ap (λ (x : Pages). x.used_pages) same;
}

module _ (size : ℕ) (live : ℕ → ℕ) (s : AlignedHeap) (some_pages : 0 < div_round_up size page_size)
    (fits : size ≤ div_round_up size page_size * page_size) where
  count : ℕ
  count = div_round_up size page_size

  recorded_at-Given :
      (page : ℕ) (p : Pages) (r : Option ℕ × Heap)
      → IsApart live s.heap
      → Reserved count s.heap.pages (some page, p)
      → Allocated record_size
          (with_block (page * page_size) (count * page_size) live)
          (record s.heap { pages = p })
          r
      → AlignedGiven size live s (recorded_at (page * page_size) count r s)
  unfolding AlignedGiven count
  recorded_at-Given page p (none, h) before a₀ (full, same, lists, v, keeps) =
      let a = page * page_size in
      let back : a / page_size ≡ page = omega arith in
      let freed =
        pages-Freed a count live h some_pages (free_contiguous a count h.pages) (omega arith) v
          (free_contiguous-Released a count h.pages (omega (arith, back, a₀.0, before.pages.small))
            v.pages)
          h refl (λ x o. refl) in
      subst (λ (o : Option Heap). AlignedGiven size live s (unreserved o s)) (sym freed.1)
        (
          inr (page, p, a₀, full),
          Marked-Restored page count s.heap.pages h.pages freed.0 before.pages a₀.0 a₀.1
              (subst (λ (q : Pages). Marked true page count s.heap.pages q) (sym same) a₀.2)
              (subst (λ (i : ℕ). Marked false i count h.pages freed.0) back freed.3),
          lists,
          freed.2.apart,
          λ x l. freed.2.keeps x l ∙ keeps x (omega (arith, l)),
          refl,
        )
  recorded_at-Given page p (some at, h) before a₀ (b, same, handed) = (
    count,
    b,
    fits,
    omega arith,
    put_here (bucket_of (page * page_size))
          (record { at = at; address = page * page_size; pages = count }
            ∷ s.buckets (bucket_of (page * page_size)))
          s.buckets
        ∙ ap
            (λ (x : ℕ).
              record { at = x; address = page * page_size; pages = count }
              ∷ s.buckets (bucket_of (page * page_size)))
            same,
    record {
      header = handed.header;
      place = handed.place;
      fits = handed.fits;
      apart = record { pages = handed.apart.pages; apart = handed.apart.apart };
      keeps = handed.keeps;
    },
  )

  pages_taken-Given :
      (r : Option ℕ × Pages)
      → IsApart live s.heap
      → Reserved count s.heap.pages r
      → AlignedGiven size live s (pages_taken count r s)
  unfolding AlignedGiven count
  pages_taken-Given (none, p) v a = (
    inl a.1,
    same_pages-IsRestored s.heap.pages p a.0,
    refl,
    unchanged-IsApart live s.heap p a.0 v,
    λ x l. refl,
    refl,
  )
  pages_taken-Given (some page, p) v a =
      recorded_at-Given page p (kmalloc record_size (record s.heap { pages = p })) v a (
        kmalloc-Allocated record_size (with_block (page * page_size) (count * page_size) live)
          (record s.heap { pages = p }) (omega arith) (omega arith)
          (reserved-IsApart count page p live s.heap v a))

-- For an alignment above that of kmalloc and at most a page, and a size that is not 0 and below 2^64 less a page:
-- kmalloc_aligned does not panic. Either it answers null, and then no run of so many pages was free, or with such
-- a run taken there was no room for the record of it; the bitmap, the count of used pages, the free lists, the
-- other allocations' headers and the buckets are as they were. Or it answers the start of a page, with room for the size, and the
-- record of it comes first in its bucket; its pages and the record have no byte in common with each
-- other, the other allocations or a free chunk, and the other allocations' headers stay.
pub kmalloc_aligned-Given :
    (size alignment : ℕ) (live : ℕ → ℕ) (s : AlignedHeap)
    → 0 < size
    → size + 4095 < 2 ^ 64
    → header_size < alignment
    → alignment ≤ page_size
    → IsApart live s.heap
    → AlignedGiven size live s (kmalloc_aligned size alignment s)
unfolding kmalloc_aligned count
kmalloc_aligned-Given size alignment live s some_bytes small above below v =
    let count = div_round_up size page_size in
    let asked : (size == 0) ≡ false = ground (arith, some_bytes) in
    let more : leb alignment header_size ≡ false = ground (arith, above) in
    let within : ltb page_size alignment ≡ false = ground (arith, below) in
    let some_pages : 0 < count = ground (arith, some_bytes, small) in
    rw (asked, more, within)
      (pages_taken-Given size live s some_pages (ground (arith, small))
        (allocate_contiguous count s.heap.pages) v
        (allocate_contiguous-Reserved count s.heap.pages some_pages v.pages))

-- the records of other addresses
unfoldable pub AreOthers : ℕ → List AlignedAllocation → Type 0
AreOthers address [] = Unit {0}
AreOthers address (r ∷ records) = (r.address ≢ address) × AreOthers address records

unlinked-past :
    (r : AlignedAllocation) (before after : List AlignedAllocation)
    → AreOthers r.address before
    → unlinked r.address (before ++ (r ∷ after)) ≡ some (r, before ++ after)
unfolding unlinked AreOthers
unlinked-past r [] after others =
    let here : (r.address == r.address) ≡ true = ground arith in rw (here) refl
unlinked-past r (x ∷ before) after others =
    let other : (x.address == r.address) ≡ false = ground (arith, others.0) in
    rw (other, unlinked-past r before after others.1) refl

-- An allocation of pages that ends by 2^64, whose record is in its bucket behind records of other addresses, and is
-- itself an allocation of the heap: kfree_aligned does not panic on it. Exactly its pages become free, and
-- then the memory of the record goes back, a chunk to the head of its free list or its pages to the page
-- allocator; the record is gone from the bucket, and the others of the bucket stay in their order. The other
-- allocations and the free chunks stay apart from each other in used pages, and the headers of the other
-- allocations stay.
pub kfree_aligned-Freed :
    (address count b class size : ℕ) (before after : List AlignedAllocation) (live : ℕ → ℕ)
    (s : AlignedHeap)
    → s.buckets (bucket_of address)
      ≡ before ++ (record { at = b + header_size; address = address; pages = count } ∷ after)
    → AreOthers address before
    → 0 < count
    → address % page_size ≡ 0
    → address + count * page_size ≤ 2 ^ 64
    → s.heap.headers b ≡ header_for class size
    → IsPlace b class
    → b < 2 ^ 64
    → size + 4111 < 2 ^ 64
    → 0 < extent class size
    → IsApart
        (with_block b (extent class size) (with_block address (count * page_size) live))
        s.heap
    → (s' : AlignedHeap) × (kfree_aligned (some address) s ≡ some s')
      × Freed live s.heap s'.heap
      × ((p : Pages) × Marked false (address / page_size) count s.heap.pages p
          × Returned b class size (record s.heap { pages = p }) s'.heap)
      × (s'.buckets (bucket_of address) ≡ before ++ after)
unfolding kfree_aligned
kfree_aligned-Freed address count b class size before after live s there others_before some_pages
      start end header place at small some_bytes v =
    let r : AlignedAllocation = record { at = b + header_size; address = address; pages = count } in
    let rest = before ++ after in
    let found : unlinked address (s.buckets (bucket_of address)) ≡ some (r, rest) =
      ap (unlinked address) there ∙ unlinked-past r before after others_before in
    let n = extent class size in
    let h = counted_out count s.heap in
    let others = with_block b n live in
    let v' : IsApart (with_block address (count * page_size) others) h = record {
      pages = v.pages;
      apart = λ x. omega (arith, v.apart x);
    } in
    let freed =
      pages-Freed address count others h some_pages (free_contiguous address count h.pages) start v'
        (free_contiguous-Released address count h.pages (omega (arith, start, end)) v.pages) h refl
        (λ x o. refl) in
    let freed_pages : Heap = record h { pages = freed.0 } in
    let kept = freed.2.keeps b (omega (arith, covers_self b n some_bytes)) ∙ header in
    let last = kfree-Freed b class size live freed_pages kept place at small freed.2.apart in
    let buckets = put (bucket_of address) rest s.buckets in
    (
      record { heap = last.0; buckets = buckets },
      rw (found, freed.1, last.1) refl,
      record {
        apart = last.2.apart;
        keeps = λ x l. last.2.keeps x l ∙ freed.2.keeps x (omega (arith, l));
      },
      (freed.0, freed.3, last.3),
      put_here (bucket_of address) rest s.buckets,
    )

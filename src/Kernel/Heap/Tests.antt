-- ===== src/Kernel/Heap/Tests.antt =====
-- kernel/mm/heap.cpp: runs of kmalloc and kfree on small inputs.
use shit_os.Prelude.{
  ℕ, ◌+◌, ◌-◌, ◌*◌, ◌/◌, false, ◌%◌, ◌^◌, ◌≡◌, refl, arith, none, some, [], ◌∷◌, leb, ◌==◌,
  if◌then◌else◌, inl,
}
use shit_os.Kernel.Memory.Physical.{page_size, Pages}
use shit_os.Kernel.Memory.Count.{IsValid, Marked, in_use}
use shit_os.Kernel.Heap.Alloc.{
  Header, Heap, word, header_size, push_chunk, released, heap_initialize, class_from, class_for,
  kmalloc, kfree,
}
use shit_os.Kernel.Heap.Bytes.{count_in, count_classes}
use shit_os.Kernel.Heap.Refill.{IsApart}
use shit_os.Kernel.Heap.Blocks.{header_for, extent, with_block}
use shit_os.Kernel.Heap.Give.{Allocated, kmalloc-Allocated}
use shit_os.Kernel.Heap.Free.{Freed, Returned, kfree-Freed}
use shit_os.Kernel.Heap.Copy.{Memory}
use shit_os.Kernel.Heap.Realloc.{Resized, krealloc, krealloc-Resized}
use shit_os.Kernel.Heap.Aligned.{
  AlignedAllocation, AlignedHeap, bucket_of, kmalloc_aligned, kfree_aligned,
}
use shit_os.Kernel.Heap.PageAligned.{
  AlignedGiven, AreOthers, kmalloc_aligned-Given, kfree_aligned-Freed,
}
use shit_os.Kernel.Heap.Twice.{AllAligned, IsAligned, kfree_twice}

-- eight pages, of which the first is used
abbrev pages : Pages
pages = record { used = λ i. i == 0; total = 8; used_pages = 1; search_hint = 0 }

-- the headers of chunks of 64 bytes that hold 40
abbrev headers : ℕ → Header
headers a = header_for 1 40

abbrev heap : Heap
heap = heap_initialize pages headers

pages-IsValid : IsValid pages
unfolding in_use
pages-IsValid = record { small = omega arith; counted = refl }

heap-IsApart : IsApart (λ b. 0) heap
unfolding heap_initialize count_classes count_in
heap-IsApart = record { pages = pages-IsValid; apart = λ b. omega arith }

kmalloc_example : Allocated 40 (λ b. 0) heap (kmalloc 40 heap)
kmalloc_example = kmalloc-Allocated 40 (λ b. 0) heap (omega arith) (omega arith) heap-IsApart

large_example : Allocated 5000 (λ b. 0) heap (kmalloc 5000 heap)
large_example = kmalloc-Allocated 5000 (λ b. 0) heap (omega arith) (omega arith) heap-IsApart

-- with one allocation, at 64
one_block-IsApart : IsApart (with_block 64 (extent 1 40) (λ b. 0)) heap
unfolding heap_initialize count_classes count_in
one_block-IsApart = record { pages = pages-IsValid; apart = λ b. ground arith }

header_there : heap.headers 64 ≡ header_for 1 40
unfolding heap_initialize
header_there = refl

kfree_example :
    (h' : Heap) × (kfree (64 + header_size) heap ≡ some h')
    × Freed (λ b. 0) heap h'
    × Returned 64 1 40 heap h'
    × (h'.bytes_in_use ≡ word (heap.bytes_in_use + 2 ^ 64 - 40))
kfree_example =
    kfree-Freed 64 1 40 (λ b. 0) heap header_there (inl (omega arith)) (omega arith) (omega arith)
      one_block-IsApart

heap-IsAligned : IsAligned heap
unfolding heap_initialize AllAligned
heap-IsAligned = λ class. tt

one_freed : kfree (64 + header_size) heap ≡ some (push_chunk 1 64 (released 64 heap))
unfolding kfree heap_initialize
one_freed = refl

kfree_twice_example : kfree (64 + header_size) (push_chunk 1 64 (released 64 heap)) ≡ none
kfree_twice_example =
    kfree_twice 64 heap (push_chunk 1 64 (released 64 heap)) heap-IsAligned one_freed

abbrev memory : Memory
memory x = x % 256

krealloc_example :
    Resized 64 1 40 100
      (λ b. 0)
      heap
      memory
      header_there
      (inl (omega arith))
      (omega arith)
      (omega arith)
      (omega arith)
      (krealloc (64 + header_size) 100 heap memory)
krealloc_example =
    krealloc-Resized 64 1 40 100 (λ b. 0) heap memory header_there (inl (omega arith)) (omega arith)
      (omega arith) (omega arith) (omega arith) (omega arith) one_block-IsApart

-- without allocations of whole pages
abbrev unaligned : AlignedHeap
unaligned = record { heap = heap; buckets = λ i. [] }

kmalloc_aligned_example : AlignedGiven 5000 (λ b. 0) unaligned (kmalloc_aligned 5000 4096 unaligned)
kmalloc_aligned_example =
    kmalloc_aligned-Given 5000 4096 (λ b. 0) unaligned (omega arith) (omega arith) (omega arith)
      (omega arith) heap-IsApart

-- with the allocation of page 1, whose record is at 64
abbrev page_one : AlignedAllocation
page_one = record { at = 64 + header_size; address = 4096; pages = 1 }

abbrev two_pages : Pages
two_pages = record { used = λ i. leb i 1; total = 8; used_pages = 2; search_hint = 0 }

abbrev one_aligned : AlignedHeap
one_aligned = record {
  heap = heap_initialize two_pages headers;
  buckets = λ i. if i == 1 then page_one ∷ [] else [];
}

two_pages-IsValid : IsValid two_pages
unfolding in_use
two_pages-IsValid = record { small = omega arith; counted = refl }

one_aligned-IsApart :
    IsApart
      (with_block 64 (extent 1 40) (with_block 4096 (1 * page_size) (λ b. 0)))
      one_aligned.heap
unfolding heap_initialize count_classes count_in
one_aligned-IsApart = record { pages = two_pages-IsValid; apart = λ b. ground arith }

page_one_there : one_aligned.buckets (bucket_of 4096) ≡ page_one ∷ []
page_one_there = refl

none_before : AreOthers 4096 []
unfolding AreOthers
none_before = tt

record_there : one_aligned.heap.headers 64 ≡ header_for 1 40
unfolding heap_initialize
record_there = refl

kfree_aligned_example :
    (s' : AlignedHeap) × (kfree_aligned (some 4096) one_aligned ≡ some s')
    × Freed (λ b. 0) one_aligned.heap s'.heap
    × ((p : Pages) × Marked false (4096 / page_size) 1 one_aligned.heap.pages p
        × Returned 64 1 40 (record one_aligned.heap { pages = p }) s'.heap)
    × (s'.buckets (bucket_of 4096) ≡ [])
kfree_aligned_example =
    kfree_aligned-Freed 4096 1 64 1 40 [] [] (λ b. 0) one_aligned page_one_there none_before
      (omega arith) refl (omega arith) record_there (inl (omega arith)) (omega arith) (omega arith)
      (omega arith) one_aligned-IsApart

-- adding the header to a size near 2^64 wraps: such a size gets the smallest chunk
huge_is_small : class_for (2 ^ 64 - 1) ≡ 0
unfolding class_from
huge_is_small = refl

-- ===== src/Libc/Heap/Wrap.antt =====
-- user/libc/src/stdlib.c: `malloc` and `realloc` of sizes near the end of a `size_t`.
use shit_os.Prelude.{
  ℕ, ◌-◌, ◌^◌, ◌≤◌, ◌<◌, ◌≡◌, ◌≢◌, refl, arith, true, false, Option, none, some, ltb, leb, ◌==◌,
}
use shit_os.Libc.Heap.Blocks.{View, Bins, Heap, header_size, align_up, split, view_at, close}
use shit_os.Libc.Heap.Alloc.{
  growth, extend_heap, take_free_block, hand_out, allocate, malloc, in_place, realloc_block,
  realloc,
}

growth_wraps :
    (size : ℕ) → 2 ^ 64 - 32 < size → size ≤ 2 ^ 64 - 16 → growth (align_up size) ≡ 131072
unfolding growth align_up
growth_wraps size lo hi = ground arith

aligned_size :
    (size : ℕ)
    → 2 ^ 64 - 32 < size
    → size ≤ 2 ^ 64 - 16
    → (ltb (align_up size) size ≡ false) × ((size == 0) ≡ false)
unfolding align_up
aligned_size size lo hi = (ground arith, ground arith)

hand_out-not_null : (wanted : ℕ) (v : View) (bins : Bins) → (hand_out wanted v bins).0 ≢ 0
unfolding hand_out
hand_out-not_null wanted v bins = ground arith

allocate-not_null :
    (wanted memory : ℕ) (h : Heap)
    → take_free_block wanted h ≡ none
    → (allocate (some memory) wanted h).0 ≢ 0
unfolding allocate extend_heap
allocate-not_null wanted memory h e = rw (e, allocate) (hand_out-not_null wanted _ _)

-- Asked for 2^64 - 31 to 2^64 - 16 bytes with no free block that large, `malloc` asks the kernel for
-- 128 KiB, header and all, and returns a pointer to them as if they were enough.
pub malloc_wraps :
    (size memory : ℕ) (h : Heap)
    → 2 ^ 64 - 32 < size
    → size ≤ 2 ^ 64 - 16
    → take_free_block (align_up size) h ≡ none
    → (growth (align_up size) ≡ 131072) × ((malloc (some memory) size h).0 ≢ 0)
unfolding malloc
malloc_wraps size memory h lo hi e = (
  growth_wraps size lo hi,
  rw ((aligned_size size lo hi).1, (aligned_size size lo hi).0)
      (allocate-not_null (align_up size) memory h e),
)

in_place-wraps :
    (sbrk : Option ℕ) (pointer size : ℕ) (v : View) (h : Heap)
    → 2 ^ 64 - 16 < size
    → size < 2 ^ 64
    → (h' : Heap) × (realloc_block sbrk pointer size v h ≡ some (pointer, h'))
unfolding realloc_block in_place
in_place-wraps sbrk pointer size v h lo hi = (
  record {
    chain = close (split (align_up size) v h.bins).0;
    bins = (split (align_up size) v h.bins).1;
  },
  rw (small, realloc_block) refl,
)
  where
    small : leb (align_up size) v.block.size ≡ true
    small = unfold align_up in ground arith

-- Asked to grow a block to more than 2^64 - 16 bytes, `realloc` returns the block where it is.
pub realloc_wraps :
    (sbrk : Option ℕ) (pointer size : ℕ) (v : View) (h : Heap)
    → pointer ≢ 0
    → 2 ^ 64 - 16 < size
    → size < 2 ^ 64
    → view_at (pointer - header_size) h.chain ≡ some v
    → (h' : Heap) × (realloc sbrk pointer size h ≡ some (pointer, h'))
unfolding realloc in_place-wraps
realloc_wraps sbrk pointer size v h p lo hi e =
    let (h', same) = in_place-wraps sbrk pointer size v h lo hi in
    (h', rw (not_null, positive, e, realloc) same)
  where
    not_null : (pointer == 0) ≡ false
    not_null = ground (arith, p)

    positive : (size == 0) ≡ false
    positive = ground arith

-- ===== src/Libc/Heap/Valid.antt =====
-- user/libc/src/stdlib.c: `malloc` in a well-formed heap.
use shit_os.Prelude.{
  ℕ, ◌+◌, ◌%◌, ◌^◌, ◌≤◌, ◌≡◌, ◌≢◌, arith, false, ◌&&◌, ◌∷◌, some, ltb, ◌==◌, inl, inr,
}
use shit_os.Libc.Heap.Blocks.{View, Bins, Heap, header_size, align_up, split}
use shit_os.Libc.Heap.Alloc.{hand_out, allocate, malloc}
use shit_os.Libc.Heap.Chain.{close-IsChain}
use shit_os.Libc.Heap.Count.{hit, total, free_here, used_here, total-unwind}
use shit_os.Libc.Heap.Split.{Trimmed, split-Trimmed}
use shit_os.Libc.Heap.Find.{IsValid, Ready, take_free_block-cases}
use shit_os.Libc.Heap.Grow.{IsGiven, extend_heap-Ready}

-- A block of `got` bytes was taken into use at an address, and nothing else changed for those in use.
pub record Allocated (size : ℕ) (h : Heap) (pointer : ℕ) (h' : Heap) : Type 0 where
  pub valid : IsValid h'
  pub not_null : pointer ≢ 0
  pub got : ℕ
  pub enough : size ≤ got
  pub one_more :
      (a s : ℕ)
      → total (used_here a s) h'.chain
        ≡ total (used_here a s) h.chain + hit ((a + header_size == pointer) && (s == got))

hand_out-Allocated :
    {h : Heap} (size wanted : ℕ) (v : View) (bins : Bins)
    → size ≤ wanted
    → 16 ≤ wanted
    → wanted % 16 ≡ 0
    → Ready h wanted v bins
    → Allocated size h (hand_out wanted v bins).0 (hand_out wanted v bins).1
unfolding hand_out
hand_out-Allocated {h} size wanted v bins le lo al r = record {
  valid = record {
    blocks =
        close-IsChain {v = done}
          record { below = t.0.below; block = ground (arith, t.0.block); above = t.0.above };
    binned = λ k a.
        omega (arith, t.0.binned k a, total-unwind (free_here k a) s.before (done.block ∷ s.after));
  };
  not_null = ground arith;
  got = s.block.size;
  enough = omega (arith, t.2);
  one_more = λ a n. ground (
    arith,
    total-unwind (used_here a n) s.before (done.block ∷ s.after),
    t.1.used_same a n,
    r.used_same a n,
  );
}
  where
    s : View
    s = (split wanted v bins).0

    done : View
    done = record s { block = record s.block { is_free = false } }

    t : Trimmed wanted v (split wanted v bins)
    t = split-Trimmed wanted v bins lo al r.fits r.held

allocate-Allocated :
    {h : Heap} (size wanted memory : ℕ)
    → size ≤ wanted
    → 16 ≤ wanted
    → wanted % 16 ≡ 0
    → wanted ≤ 2 ^ 62
    → IsValid h
    → IsGiven h wanted memory
    → Allocated size h (allocate (some memory) wanted h).0 (allocate (some memory) wanted h).1
unfolding allocate
allocate-Allocated {h} size wanted memory le lo al hi i g = elim (take_free_block-cases wanted i) [
  | inl none_free ↦
      let (v, bins, e, r) = extend_heap-Ready wanted memory i lo hi g in
      rw (none_free, e, allocate) (hand_out-Allocated size wanted v bins le lo al r)
  | inr (v, bins, e, r) ↦ rw (e, allocate) (hand_out-Allocated size wanted v bins le lo al r)
]

align_up_lem :
    (size : ℕ)
    → 1 ≤ size
    → size ≤ 2 ^ 62
    → (size ≤ align_up size)
      × (16 ≤ align_up size)
      × (align_up size % 16 ≡ 0)
      × (align_up size ≤ 2 ^ 62)
unfolding align_up
align_up_lem size lo hi = ground arith

-- In a well-formed heap, and with memory from `sbrk` for the case that no free block is large enough,
-- `malloc` of 1 to 2^62 bytes returns a pointer to a block with room for them, leaves the heap
-- well-formed, and leaves every other block in use as it was.
pub malloc-Allocated :
    {h : Heap} (size memory : ℕ)
    → 1 ≤ size
    → size ≤ 2 ^ 62
    → IsValid h
    → IsGiven h (align_up size) memory
    → Allocated size h (malloc (some memory) size h).0 (malloc (some memory) size h).1
unfolding malloc
malloc-Allocated {h} size memory lo hi i g =
    rw (positive, no_wrap) (allocate-Allocated size (align_up size) memory a.0 a.1 a.2 a.3 i g)
  where
    a :
        (size ≤ align_up size)
        × (16 ≤ align_up size)
        × (align_up size % 16 ≡ 0)
        × (align_up size ≤ 2 ^ 62)
    a = align_up_lem size lo hi

    positive : (size == 0) ≡ false
    positive = ground arith

    no_wrap : ltb (align_up size) size ≡ false
    no_wrap = ground (arith, a.0)

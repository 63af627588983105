-- ===== src/Kernel/Heap/Realloc.antt =====
-- kernel/mm/heap.cpp: kzalloc and krealloc. Memory here is the bytes that callers keep in their allocations, behind the
-- headers. What the heap writes for itself, the headers and the links of the free chunks, is in `headers` and
-- `free_lists`, and the bytes of memory that it takes are not looked at. No other call runs between the parts of
-- these operations here, each of which takes the lock.
use shit_os.Prelude.{
  ℕ, ◌+◌, ◌-◌, ◌/◌, ◌^◌, ◌≤◌, ◌<◌, ◌≡◌, ◌∙◌, ◌⊎◌, refl, sym, arith, Bool, false, Option, none, some,
  leb, ◌==◌, if◌then◌else◌,
}
use mathlib.Core.Path.{subst}
use shit_os.Kernel.Memory.Physical.{page_size}
use shit_os.Kernel.Memory.Count.{hit}
use shit_os.Kernel.Heap.Alloc.{Heap, header_magic, header_size, class_for, kmalloc, kfree}
use shit_os.Kernel.Heap.Bytes.{covers, free_at, covers_self}
use shit_os.Kernel.Heap.Copy.{Memory, memset, memcpy, Copied, memcpy-Copied}
use shit_os.Kernel.Heap.Refill.{IsApart, Keeps}
use shit_os.Kernel.Heap.Blocks.{extent, with_block, header_for, IsPlace}
use shit_os.Kernel.Heap.Give.{HandedOut, Allocated, NoRoom, kmalloc-Allocated}
use shit_os.Kernel.Heap.Free.{Returned, kfree-Freed}

abbrev pub zeroed : ℕ → Option ℕ × Heap → Memory → (Option ℕ × Heap) × Memory
zeroed size (none, h) m = ((none, h), m)
zeroed size (some pointer, h) m = ((some pointer, h), memset pointer 0 size m)

unfoldable pub kzalloc : ℕ → Heap → Memory → (Option ℕ × Heap) × Memory
kzalloc size h m = zeroed size (kmalloc size h) m

abbrev pub Outcome : Type 0
Outcome = Option ((Option ℕ × Heap) × Memory)

abbrev pub after_free : Option ℕ → Memory → Option Heap → Outcome
after_free answer m none = none
after_free answer m (some h) = some ((answer, h), m)

-- the copy of the old bytes, if there is room for it
abbrev pub moved_to : Option ℕ × Heap → ℕ → ℕ → Memory → Outcome
moved_to (none, h) pointer old m = some ((none, h), m)
moved_to (some replacement, h) pointer old m =
    after_free (some replacement) (memcpy replacement pointer old m) (kfree pointer h)

-- `none` is the panic
unfoldable pub krealloc : ℕ → ℕ → Heap → Memory → Outcome
krealloc pointer size h m =
    let header = h.headers (pointer - header_size) in
    if pointer == 0
    then some (kmalloc size h, m)
    else if size == 0
    then after_free none m (kfree pointer h)
    else if header.magic == header_magic
    then (if leb size header.payload_size
        then some ((some pointer, h), m)
        else moved_to (kmalloc size h) pointer header.payload_size m)
    else none

-- the copied bytes, with the bytes of all other allocations as they were
record Moved (old d s : ℕ) (live : ℕ → ℕ) (m m' : Memory) : Type 0 where
  pub copied : (i : ℕ) → i < old → m' (d + i) ≡ m (s + i)
  pub others : (x : ℕ) → 0 < live x → m' x ≡ m x

-- a byte of another allocation is outside a block
outside_block :
    (b k x l f : ℕ) (used : Bool) → 0 < l → l + covers b k x + f ≤ hit used → (x < b) ⊎ (b + k ≤ x)
outside_block b k x l f used some_live room = ground (arith, some_live, room)

within_block :
    (d n b k x : ℕ)
    → d ≡ b + header_size
    → n + header_size ≤ k
    → (x < b) ⊎ (b + k ≤ x)
    → (x < d) ⊎ (d + n ≤ x)
within_block d n b k x at fits outside = ground (arith, at, fits, outside)

-- two allocations do not overlap
starts_apart :
    (a n b k l f l' f' : ℕ) (used used' : Bool)
    → l + 1 + covers b k a + f ≤ hit used
    → l' + covers a n b + 1 + f' ≤ hit used'
    → (a + n ≤ b) ⊎ (b + k ≤ a)
starts_apart a n b k l f l' f' used used' room room' = ground (arith, room, room')

two_apart :
    (a n b k : ℕ) (live : ℕ → ℕ) (h : Heap)
    → 0 < n
    → 0 < k
    → IsApart (with_block b k (with_block a n live)) h
    → (a + n ≤ b) ⊎ (b + k ≤ a)
two_apart a n b k live h some_n some_k v =
    starts_apart a n b k (live a) (free_at h.free_lists a) (live b) (free_at h.free_lists b)
      (h.pages.used (a / page_size)) (h.pages.used (b / page_size))
      (omega (arith, v.apart a, covers_self a n some_n))
      (omega (arith, v.apart b, covers_self b k some_k))

swapped :
    (a n b k : ℕ) (live : ℕ → ℕ) (h : Heap)
    → IsApart (with_block b k (with_block a n live)) h
    → IsApart (with_block a n (with_block b k live)) h
swapped a n b k live h v = record { pages = v.pages; apart = λ x. omega (arith, v.apart x) }

module _ (a class old size : ℕ) (live : ℕ → ℕ) (h : Heap) (m : Memory)
    (header : h.headers a ≡ header_for class old) (place : IsPlace a class)
    (fits : old + header_size ≤ extent class old) (below : a < 2 ^ 64)
    (fewer : old + 4111 < 2 ^ 64) where
  -- with room for the size, the old bytes are where the answer is, those of the other allocations are as they
  -- were, and the old block went back to the heap; without, all is as it was
  pub Resized : Outcome → Type 0
  Resized none = ⊥
  Resized (some ((none, h'), m')) =
      NoRoom size h
      × (h'.pages ≡ h.pages)
      × (h'.free_lists ≡ h.free_lists)
      × IsApart (with_block a (extent class old) live) h'
      × Keeps (with_block a (extent class old) live) h h'
      × (m' ≡ m)
  Resized (some ((some pointer, h'), m')) =
      (b : ℕ) × (pointer ≡ b + header_size)
      × HandedOut b size live h h'
      × Moved old pointer (a + header_size) live m m'
      × Returned a class old (kmalloc size h).1 h'

  moved_to-Resized :
      (r : Option ℕ × Heap)
      → (kmalloc size h).1 ≡ r.1
      → old < size
      → Allocated size (with_block a (extent class old) live) h r
      → Resized (moved_to r (a + header_size) old m)
  unfolding Resized
  moved_to-Resized (none, h') same_heap more (full, pages, lists, v, keeps) =
      (full, pages, lists, v, keeps, refl)
  moved_to-Resized (some pointer, h') same_heap more (b, same, handed) =
      let n = extent class old in
      let k = extent (class_for size) size in
      let others = with_block b k live in
      let apart =
        two_apart a n b k live h' (omega (arith, fits)) (omega (arith, handed.fits)) handed.apart in
      let copied : Copied old pointer (a + header_size) m (memcpy pointer (a + header_size) old m) =
        memcpy-Copied old pointer (a + header_size) m
          (ground (arith, apart, same, fits, handed.fits, more)) in
      let old_header =
        handed.keeps a (omega (arith, covers_self a n (omega (arith, fits)))) ∙ header in
      let freed =
        kfree-Freed a class old others h' old_header place below fewer
          (swapped a n b k live h' handed.apart) in
      let new_header =
        freed.2.keeps b (omega (arith, covers_self b k (omega (arith, handed.fits)))) in
      subst
        (λ (o : Option Heap).
          Resized (after_free (some pointer) (memcpy pointer (a + header_size) old m) o))
        (sym freed.1)
        (
          b,
          same,
          record {
            header = new_header ∙ handed.header;
            place = handed.place;
            fits = handed.fits;
            apart = freed.2.apart;
            keeps = λ x l. freed.2.keeps x (omega (arith, l)) ∙ handed.keeps x (omega (arith, l));
          },
          record {
            copied = copied.inside;
            others = λ x l. copied.outside x (
                within_block pointer old b k x same (omega (arith, handed.fits, more)) (
                  outside_block b k x (live x) (covers a n x + free_at h'.free_lists x)
                    (h'.pages.used (x / page_size)) l (omega (arith, handed.apart.apart x))));
          },
          subst (λ (g : Heap). Returned a class old g freed.0) (sym same_heap) freed.3,
        )

  -- Growing an allocation that lies beside others, its address below 2^64 and the new size below 2^64 less a page and
  -- a header: krealloc does not panic. Either it answers null for want of pages, and then the allocation, the
  -- others, the pages, the free lists and the bytes that callers keep are as they were. Or it answers memory with
  -- room for the size, apart from the other allocations, that holds the old bytes; the old block has gone back
  -- to the heap that kmalloc left, a chunk to its free list or its pages to the page allocator, and the bytes
  -- that callers keep in the other allocations are as they were.
  pub krealloc-Resized :
      old < size
      → size + 4111 < 2 ^ 64
      → IsApart (with_block a (extent class old) live) h
      → Resized (krealloc (a + header_size) size h m)
  unfolding krealloc
  krealloc-Resized more small v =
      let back : a + header_size - header_size ≡ a = omega arith in
      let pointer : (a + header_size == 0) ≡ false = ground arith in
      let asked : (size == 0) ≡ false = ground (arith, more) in
      let longer : leb size old ≡ false = ground (arith, more) in
      rw (pointer, asked, back, header, longer)
        (moved_to-Resized (kmalloc size h) refl more (
          kmalloc-Allocated size (with_block a (extent class old) live) h (omega (arith, more))
            small v))

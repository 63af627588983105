-- ===== src/Kernel/Heap/Free.antt =====
-- kernel/mm/heap.cpp: what kfree does with an allocation.
use shit_os.Prelude.{
  ℕ, ◌+◌, ◌-◌, ◌*◌, ◌/◌, ◌%◌, ◌^◌, ◌≤◌, ◌<◌, ◌≡◌, ◌≢◌, ◌∙◌, ◌⊎◌, inl, inr, refl, sym, ap, arith,
  Bool, true, false, ◌&&◌, Option, none, some, List, ◌∷◌, ltb, leb, ◌==◌, if◌then◌else◌,
}
use mathlib.Core.Path.{subst}
use shit_os.Kernel.Memory.Physical.{Pages, page_size, free_contiguous}
use shit_os.Kernel.Memory.Count.{hit, Marked}
use shit_os.Kernel.Memory.Release.{Released, free_contiguous-Released}
use shit_os.Kernel.Heap.Alloc.{
  Header, Heap, header_size, class_large, class_count, chunk_size, put, word, pages_for, pointer_to,
  linked, push_chunk, with_pages, released, kfree,
}
use shit_os.Kernel.Heap.Bytes.{covers, free_at, free_at-push_chunk, covers_self}
use shit_os.Kernel.Heap.Refill.{used_at, IsApart, Keeps, chunk_size_positive}
use shit_os.Kernel.Heap.Blocks.{
  extent, with_block, header_for, IsPlace, pages_for-fits, covers-run, put_other, chunk_not_live,
}

-- after an allocation is freed: the others are as they were
pub record Freed (live : ℕ → ℕ) (h h' : Heap) : Type 0 where
  pub apart : IsApart live h'
  pub keeps : Keeps live h h'

-- where the memory of a block goes: a chunk to the head of its free list, whole pages to the page allocator
abbrev pub Returned : ℕ → ℕ → ℕ → Heap → Heap → Type 0
Returned a class size h h' =
    ((class < 7)
      × (h'.free_lists ≡ put class (a ∷ h.free_lists class) h.free_lists)
      × (h'.pages ≡ h.pages))
    ⊎ ((class ≡ class_large)
        × Marked false (a / page_size) (pages_for size) h.pages h'.pages
        × (h'.free_lists ≡ h.free_lists))

-- no other allocation lies at the header of one
not_here :
    (a size : ℕ) (live : ℕ → ℕ) (h : Heap) (x : ℕ)
    → 0 < size
    → IsApart (with_block a size live) h
    → 0 < live x
    → x ≢ a
not_here a size live h x some_bytes v l = λ same.
    chunk_not_live (live a) (free_at h.free_lists a) (h.pages.used (a / page_size))
      (subst (λ (b : ℕ). 0 < live b) same l)
      (omega (arith, v.apart a, covers_self a size some_bytes))

run_left :
    (l f : ℕ) (t used used' : Bool)
    → l + (if t then 1 else 0) + f ≤ hit used
    → (t ≡ false → used' ≡ used)
    → l + f ≤ hit used'
run_left l f true used used' room outside = ground (arith, room)
run_left l f false used used' room outside = rw (outside refl) (omega (arith, room))

run_used :
    (l f : ℕ) (t used : Bool) → l + (if t then 1 else 0) + f ≤ hit used → t ≡ true → used ≡ true
run_used l f t used room h = ground (arith, room, h)

module _ (a count : ℕ) (live : ℕ → ℕ) (h : Heap) (some_pages : 0 < count) where
  in_run : ℕ → Bool
  in_run b = leb (a / page_size) (b / page_size) && ltb (b / page_size) (a / page_size + count)

  run_apart :
      a % page_size ≡ 0
      → IsApart (with_block a (count * page_size) live) h
      → (b : ℕ) → live b + (if in_run b then 1 else 0) + free_at h.free_lists b ≤ used_at h.pages b
  unfolding in_run
  run_apart start v b =
      let place : a ≡ a / page_size * page_size = omega (arith, start) in
      subst (λ (c : ℕ). live b + c + free_at h.free_lists b ≤ used_at h.pages b)
        (ap (λ (k : ℕ). covers k (count * page_size) b) place
          ∙ covers-run (a / page_size) (count) b)
        (v.apart b)

  pub pages-Freed :
      (r : Option Pages)
      → a % page_size ≡ 0
      → IsApart (with_block a (count * page_size) live) h
      → Released (a / page_size) (count) h.pages r
      → (g : Heap) → g.free_lists ≡ h.free_lists
      → ((x : ℕ) → x ≢ a → g.headers x ≡ h.headers x)
      → (p : Pages) × (with_pages g r ≡ some (record g { pages = p }))
        × Freed live h (record g { pages = p })
        × Marked false (a / page_size) count h.pages p
  unfolding in_run
  pages-Freed none start v broken g lists headers = absurd (
      broken (λ j low high below.
        let b = j * page_size in
        let back : b / page_size ≡ j = omega arith in
        let used =
          run_used (live b) (free_at h.free_lists b) (in_run b) (h.pages.used (b / page_size))
            (run_apart start v b) (ground (arith, low, high)) in
        ap h.pages.used (sym back) ∙ used))
  pages-Freed (some p) start v (all_used, marked) g lists headers = (
    p,
    refl,
    record {
      apart = record {
        pages = marked.valid;
        apart = λ b.
            subst (λ (f : ℕ → List ℕ). live b + free_at f b ≤ used_at p b) (sym lists)
              (run_left (live b) (free_at h.free_lists b) (in_run b) (h.pages.used (b / page_size))
                (p.used (b / page_size)) (run_apart start v b)
                (λ out. ground (arith, out, marked.bits (b / page_size))));
      };
      keeps = λ x l.
          headers x (not_here a (count * page_size) live h x (omega (arith, some_pages)) v l);
    },
    marked,
  )

small-Freed :
    (a class : ℕ) (live : ℕ → ℕ) (h : Heap)
    → class < 7
    → IsApart (with_block a (chunk_size class) live) h
    → Freed live h (push_chunk class a (released a h))
small-Freed a class live h below v = record {
  apart = record {
    pages = v.pages;
    apart = λ b. omega (arith, v.apart b, free_at-push_chunk class a (released a h) b below);
  };
  keeps = λ x l.
      let other =
        not_here a (chunk_size class) live h x (omega (arith, chunk_size_positive class)) v l in
      put_other a (linked (pointer_to (h.free_lists class)) ((released a h).headers a))
        (released a h).headers x other
      ∙ put_other a (record (h.headers a) { magic = 0 }) h.headers x other;
}

-- the heap after a large allocation is freed, but for its pages
large_freed : ℕ → ℕ → ℕ → Heap → Heap
large_freed a class size h = record h {
  headers = put a (record { magic = 0; size_class = class; payload_size = size }) h.headers;
  bytes_in_use = word (h.bytes_in_use + 2 ^ 64 - size);
  bytes_reserved = word (h.bytes_reserved + 2 ^ 64 - word (pages_for size * page_size));
  free_count = word (h.free_count + 1);
}

kfree-large :
    (a class size : ℕ) (h : Heap) (p : Pages)
    → h.headers a ≡ header_for class size
    → class ≡ class_large
    → with_pages (large_freed a class size h) (free_contiguous a (pages_for size) h.pages)
      ≡ some (record (large_freed a class size h) { pages = p })
    → kfree (a + header_size) h ≡ some (record (large_freed a class size h) { pages = p })
unfolding kfree large_freed
kfree-large a class size h p header is_large freed =
    let back : a + header_size - header_size ≡ a = omega arith in
    let pointer : (a + header_size == 0) ≡ false = ground arith in
    let slab : (class == class_large) ≡ true = ground (arith, is_large) in
    rw (pointer, back, header, slab) freed

-- An allocation that kmalloc handed out, at an address below 2^64, can be freed: kfree does not panic on it. A chunk
-- becomes the first of its free list, and no other list and no page changes; of a large allocation exactly
-- the pages become free, and no free list changes. Its size is taken off the bytes in use. The other
-- allocations and the free chunks stay apart from each other in used pages, and the headers of the other
-- allocations stay.
pub kfree-Freed :
    (a class size : ℕ) (live : ℕ → ℕ) (h : Heap)
    → h.headers a ≡ header_for class size
    → IsPlace a class
    → a < 2 ^ 64
    → size + 4111 < 2 ^ 64
    → IsApart (with_block a (extent class size) live) h
    → (h' : Heap) × (kfree (a + header_size) h ≡ some h')
      × Freed live h h'
      × Returned a class size h h'
      × (h'.bytes_in_use ≡ word (h.bytes_in_use + 2 ^ 64 - size))
unfolding kfree large_freed
kfree-Freed a class size live h header (inl below) place small v =
    let back : a + header_size - header_size ≡ a = omega arith in
    let pointer : (a + header_size == 0) ≡ false = ground arith in
    let slab : (class == class_large) ≡ false = ground (arith, below) in
    let known : leb class_count class ≡ false = ground (arith, below) in
    let wide : extent class size ≡ chunk_size class = rw (slab) refl in
    (
      push_chunk class a (released a h),
      rw (pointer, back, header, slab, known) refl,
      small-Freed a class live h below (subst (λ (n : ℕ). IsApart (with_block a n live) h) wide v),
      inl (below, refl, refl),
      ap (λ (x : Header). word (h.bytes_in_use + 2 ^ 64 - x.payload_size)) header,
    )
kfree-Freed a class size live h header (inr (is_large, start)) place small v =
    let slab : (class == class_large) ≡ true = ground (arith, is_large) in
    let wide : extent class size ≡ pages_for size * page_size = rw (slab) refl in
    let v' : IsApart (with_block a (pages_for size * page_size) live) h =
      subst (λ (n : ℕ). IsApart (with_block a n live) h) wide v in
    let old : Header = record { magic = 0; size_class = class; payload_size = size } in
    let g = large_freed a class size h in
    let freed =
      pages-Freed a (pages_for size) live h (pages_for-fits size small).1
        (free_contiguous a (pages_for size) h.pages) start v'
        (free_contiguous-Released a (pages_for size) h.pages (omega (arith, place, small)) v.pages)
        g refl (λ x other. put_other a old h.headers x other) in
    (
      record g { pages = freed.0 },
      kfree-large a class size h freed.0 header is_large freed.1,
      freed.2,
      inr (is_large, freed.3, refl),
      refl,
    )

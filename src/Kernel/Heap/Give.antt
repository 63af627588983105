-- ===== src/Kernel/Heap/Give.antt =====
-- kernel/mm/heap.cpp: what kmalloc gives.
use shit_os.Prelude.{
  ℕ, zero, suc, ◌+◌, ◌*◌, ◌/◌, ◌^◌, ◌≤◌, ◌<◌, ◌≡◌, ◌∙◌, ◌⊎◌, inl, inr, refl, sym, ap, arith, Bool,
  true, false, Option, none, some, List, [], ◌∷◌, leb, ◌==◌, if◌then◌else◌, Bool-cases,
}
use mathlib.Core.Path.{subst}
use shit_os.Kernel.Memory.Physical.{Pages, page_size, allocate_contiguous}
use shit_os.Kernel.Memory.Allocate.{AllUsed}
use shit_os.Kernel.Memory.Contiguous.{IsRun, Reserved, allocate_contiguous-Reserved}
use shit_os.Kernel.Heap.Alloc.{
  Heap, header_size, class_large, chunk_size, put, word, class_from, class_for, pages_for, large,
  take_chunk, after_refill, is_empty, refill_class, kmalloc,
}
use shit_os.Kernel.Heap.Bytes.{covers, free_at, free_at-pop, covers_self}
use shit_os.Kernel.Heap.Refill.{
  IsApart, Keeps, chunk_size_positive, Refilled, refill_class-Refilled,
}
use shit_os.Kernel.Heap.Blocks.{
  extent, with_block, header_for, IsPlace, pages_for-fits, put_here, put_other, not_live,
  unchanged-IsApart, reserved-IsApart, chunk_not_live,
}

-- an allocation, from its header on
pub record HandedOut (a size : ℕ) (live : ℕ → ℕ) (h h' : Heap) : Type 0 where
  pub header : h'.headers a ≡ header_for (class_for size) size
  pub place : IsPlace a (class_for size)
  pub fits : size + header_size ≤ extent (class_for size) size
  pub apart : IsApart (with_block a (extent (class_for size) size) live) h'
  pub keeps : Keeps live h h'

-- no pages for a large block, or no page for more chunks
abbrev pub NoRoom : ℕ → Heap → Type 0
NoRoom size h =
    ((class_for size ≡ class_large) × IsRun (pages_for size) 0 h.pages.total h.pages.used none)
    ⊎ ((class_for size < 7) × AllUsed 0 h.pages.total h.pages.used)

abbrev pub Allocated : ℕ → (ℕ → ℕ) → Heap → Option ℕ × Heap → Type 0
Allocated size live h (none, h') =
    NoRoom size h
    × (h'.pages ≡ h.pages)
    × (h'.free_lists ≡ h.free_lists)
    × IsApart live h'
    × Keeps live h h'
Allocated size live h (some pointer, h') =
    (a : ℕ) × (pointer ≡ a + header_size) × HandedOut a size live h h'

class_from-fits :
    (n class size : ℕ)
    → size + header_size < 2 ^ 64
    → (class_from n class size ≡ class_large)
      ⊎ ((class_from n class size < class + n)
          × (size + header_size ≤ chunk_size (class_from n class size)))
unfolding class_from
class_from-fits zero class size small = inl refl
class_from-fits (suc n) class size small =
    elim (Bool-cases (leb (word (size + header_size)) (chunk_size class))) [
      | inl e ↦ rw (e) (inr (omega arith, ground (arith, e, small)))
      | inr e ↦ rw (e) (elim (class_from-fits n (class + 1) size small) [
        | inl out ↦ inl out
        | inr (below, fits) ↦ inr (omega (arith, below), fits)
      ])
    ]

large-Allocated :
    (size : ℕ) (live : ℕ → ℕ) (h : Heap) (r : Option ℕ × Pages)
    → size + 4111 < 2 ^ 64
    → class_for size ≡ class_large
    → IsApart live h
    → Reserved (pages_for size) h.pages r
    → Allocated size live h (large size r h)
large-Allocated size live h (none, p) small is_large v a = (
  inl (is_large, a.1),
  a.0,
  refl,
  record {
    pages = (unchanged-IsApart live h p a.0 v).pages;
    apart = (unchanged-IsApart live h p a.0 v).apart;
  },
  λ x l. refl,
)
large-Allocated size live h (some s, p) small is_large v a =
    let place = s * page_size in
    let reserved = reserved-IsApart (pages_for size) s p live h v a in
    (
      place,
      refl,
      record {
        header =
            put_here place (header_for class_large size) h.headers
            ∙ ap (λ (c : ℕ). header_for c size) (sym is_large);
        place = inr (is_large, ground arith);
        fits = rw (is_large) (pages_for-fits size small).0;
        apart = record { pages = reserved.pages; apart = λ b. rw (is_large) (reserved.apart b) };
        keeps = λ x l. put_other place (header_for class_large size) h.headers x (
            not_live live h place x v
              (a.1 (place / page_size) (omega arith) (omega (arith, (pages_for-fits size small).1)))
              l);
      },
    )

-- the head of a list that is not empty
taken-Allocated :
    (size : ℕ) (live : ℕ → ℕ) (h₀ h : Heap) (chunks : List ℕ)
    → class_for size < 7
    → size + header_size ≤ chunk_size (class_for size)
    → IsApart live h
    → h.free_lists (class_for size) ≡ chunks
    → is_empty chunks ≡ false
    → Keeps live h₀ h
    → Allocated size live h₀ (take_chunk (class_for size) size chunks h)
taken-Allocated size live h₀ h [] below fits v same not_empty kept =
    absurd (ground (arith, not_empty))
taken-Allocated size live h₀ h (a ∷ chunks) below fits v same not_empty kept =
    let class = class_for size in
    let wide = chunk_size_positive class in
    let small : (class == class_large) ≡ false = ground (arith, below) in
    let moved : (b : ℕ)
        → free_at (put class chunks h.free_lists) b + covers a (chunk_size class) b
          ≡ free_at h.free_lists b =
      λ b. free_at-pop class a chunks h.free_lists b below same in
    (
      a,
      refl,
      record {
        header = put_here a (header_for class size) h.headers;
        place = inl below;
        fits = rw (small) fits;
        apart = record {
          pages = v.pages;
          apart = λ b. rw (small) (omega (arith, moved b, v.apart b));
        };
        keeps = λ x l.
            put_other a (header_for class size) h.headers x (λ at.
              chunk_not_live (live a) (free_at (put class chunks h.free_lists) a)
                (h.pages.used (a / page_size)) (subst (λ (b : ℕ). 0 < live b) at l)
                (omega (
                  arith,
                  moved a,
                  v.apart a,
                  covers_self a (chunk_size class) (omega (arith, wide)),
                )))
            ∙ kept x l;
      },
    )

after_refill-Allocated :
    (size : ℕ) (live : ℕ → ℕ) (h : Heap) (r : Bool × Heap)
    → class_for size < 7
    → size + header_size ≤ chunk_size (class_for size)
    → Refilled (class_for size) live h r
    → Allocated size live h (after_refill (class_for size) size r)
after_refill-Allocated size live h (true, h') below fits (v, keeps, some_chunk) =
    taken-Allocated size live h h' (h'.free_lists (class_for size)) below fits v refl some_chunk
      keeps
after_refill-Allocated size live h (false, h') below fits (full, v, keeps) =
    (inr (below, full.0), full.1, full.2, v, keeps)

-- For a size that is not 0 and below 2^64 less a page and a header, where the allocations and the free chunks
-- lie apart from each other in used pages: kmalloc answers null only when no run of pages, or no page for
-- more chunks, is left. Otherwise the memory that it answers has room for the size behind its header, and
-- has no byte in common with the other allocations or a free chunk, again in used pages. Either way the
-- headers of the other allocations stay.
pub kmalloc-Allocated :
    (size : ℕ) (live : ℕ → ℕ) (h : Heap)
    → 0 < size
    → size + 4111 < 2 ^ 64
    → IsApart live h
    → Allocated size live h (kmalloc size h)
unfolding kmalloc
kmalloc-Allocated size live h some_bytes small v =
    let asked : (size == 0) ≡ false = ground (arith, some_bytes) in
    elim (class_from-fits 7 0 size (omega (arith, small))) [
      | inl is_large ↦
          let test : (class_for size == class_large) ≡ true = ground (arith, is_large) in
          rw (asked, test)
            (large-Allocated size live h (allocate_contiguous (pages_for size) h.pages) small
              is_large v
              (allocate_contiguous-Reserved (pages_for size) h.pages (pages_for-fits size small).1
                v.pages))
      | inr (below, fits) ↦
          let class = class_for size in
          let test : (class == class_large) ≡ false = ground (arith, below) in
          rw (asked, test)
            (after_refill-Allocated size live h
              (if is_empty (h.free_lists class) then refill_class class h else (true, h)) below fits
              (elim (Bool-cases (is_empty (h.free_lists class))) [
                | inl e ↦ rw (e) (refill_class-Refilled class live h below v)
                | inr e ↦ simp (e) (v, λ x l. refl, refl)
              ]))
    ]

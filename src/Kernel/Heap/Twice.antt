-- ===== src/Kernel/Heap/Twice.antt =====
-- kernel/mm/heap.cpp: chunks and payloads are aligned, so that the link in a free chunk is never taken for
-- the magic number of a header, and a second kfree is noticed.
use shit_os.Prelude.{
  ℕ, zero, suc, ◌+◌, ◌-◌, ◌*◌, ◌/◌, ◌%◌, ◌^◌, ◌≡◌, ◌≢◌, ◌∙◌, inl, inr, refl, sym, ap, arith, Bool,
  true, false, Option, none, some, List, [], ◌∷◌, leb, ◌==◌, if◌then◌else◌, Bool-cases,
}
use shit_os.Kernel.Memory.Physical.{
  Pages, page_size, allocate_page, allocate_contiguous, free_contiguous,
}
use shit_os.Kernel.Heap.Alloc.{
  Header, Heap, header_magic, header_size, class_large, class_count, chunk_size, put, word,
  class_for, pages_for, pointer_to, linked, push_chunk, carve, carved, refill_class, large,
  take_chunk, after_refill, is_empty, kmalloc, with_pages, released, free_large, kfree,
}
use shit_os.Kernel.Heap.Blocks.{put_here}

unfoldable pub AllAligned : List ℕ → Type 0
AllAligned [] = Unit {0}
AllAligned (a ∷ chunks) = (a % 32 ≡ 0) × AllAligned chunks

-- the free chunks lie at multiples of 32
abbrev pub IsAligned : Heap → Type 0
IsAligned h = (class : ℕ) → AllAligned (h.free_lists class)

put_aligned :
    (class : ℕ) (chunks : List ℕ) (lists : ℕ → List ℕ)
    → AllAligned chunks
    → ((i : ℕ) → AllAligned (lists i))
    → (i : ℕ) → AllAligned (put class chunks lists i)
put_aligned class chunks lists c all i = elim (Bool-cases (i == class)) [
  | inl e ↦ rw (e) c
  | inr e ↦ rw (e) (all i)
]

push_chunk-IsAligned :
    (class a : ℕ) (h : Heap) → a % 32 ≡ 0 → IsAligned h → IsAligned (push_chunk class a h)
unfolding AllAligned
push_chunk-IsAligned class a h place all =
    put_aligned class (a ∷ h.free_lists class) h.free_lists (place, all class) all

chunk_size_aligned : (class : ℕ) → chunk_size class % 32 ≡ 0
chunk_size_aligned zero = refl
chunk_size_aligned (suc zero) = refl
chunk_size_aligned (suc (suc zero)) = refl
chunk_size_aligned (suc (suc (suc zero))) = refl
chunk_size_aligned (suc (suc (suc (suc zero)))) = refl
chunk_size_aligned (suc (suc (suc (suc (suc zero))))) = refl
chunk_size_aligned (suc (suc (suc (suc (suc (suc class)))))) = refl

carve-IsAligned :
    (chunks a class : ℕ) (h : Heap) → a % 32 ≡ 0 → IsAligned h → IsAligned (carve chunks a class h)
unfolding carve
carve-IsAligned zero a class h place all = all
carve-IsAligned (suc chunks) a class h place all =
    carve-IsAligned chunks (a + chunk_size class) class (push_chunk class a h)
      (omega (arith, place, chunk_size_aligned class)) (push_chunk-IsAligned class a h place all)

carved-IsAligned :
    (class : ℕ) (r : Option ℕ × Pages) (h : Heap) → IsAligned h → IsAligned (carved class r h).1
carved-IsAligned class (none, p) h all = all
carved-IsAligned class (some page, p) h all =
    carve-IsAligned (page_size / chunk_size class) (page * page_size) class (record h { pages = p })
      (omega arith) all

-- a payload lies behind its header
unfoldable pub AlignedAnswer : Option ℕ × Heap → Type 0
AlignedAnswer (none, h) = IsAligned h
AlignedAnswer (some pointer, h) = (pointer % 32 ≡ 16) × IsAligned h

large-Aligned :
    (size : ℕ) (r : Option ℕ × Pages) (h : Heap) → IsAligned h → AlignedAnswer (large size r h)
unfolding AlignedAnswer
large-Aligned size (none, p) h all = all
large-Aligned size (some page, p) h all = (omega arith, all)

take_chunk-Aligned :
    (class size : ℕ) (chunks : List ℕ) (h : Heap)
    → AllAligned chunks
    → IsAligned h
    → AlignedAnswer (take_chunk class size chunks h)
unfolding AlignedAnswer AllAligned
take_chunk-Aligned class size [] h c all = all
take_chunk-Aligned class size (a ∷ chunks) h c all =
    (omega (arith, c.0), put_aligned class chunks h.free_lists c.1 all)

after_refill-Aligned :
    (class size : ℕ) (r : Bool × Heap) → IsAligned r.1 → AlignedAnswer (after_refill class size r)
unfolding AlignedAnswer
after_refill-Aligned class size (true, h) all =
    take_chunk-Aligned class size (h.free_lists class) h (all class) all
after_refill-Aligned class size (false, h) all = all

-- kmalloc answers pointers of 16 more than a multiple of 32, and keeps its free chunks at such multiples.
pub kmalloc-Aligned : (size : ℕ) (h : Heap) → IsAligned h → AlignedAnswer (kmalloc size h)
unfolding kmalloc AlignedAnswer
kmalloc-Aligned size h all =
    let class = class_for size in
    elim (Bool-cases (size == 0)) [
      | inl e ↦ rw (e) all
      | inr e ↦ elim (Bool-cases (class == class_large)) [
        | inl f ↦
            rw (e, f) (large-Aligned size (allocate_contiguous (pages_for size) h.pages) h all)
        | inr f ↦
            rw (e, f)
              (after_refill-Aligned class size
                (if is_empty (h.free_lists class) then refill_class class h else (true, h))
                (elim (Bool-cases (is_empty (h.free_lists class))) [
                  | inl g ↦ rw (g) (carved-IsAligned class (allocate_page h.pages) h all)
                  | inr g ↦ rw (g) all
                ]))
      ]
    ]

magic_of : Option Heap → ℕ → ℕ
magic_of none a = 0
magic_of (some h) a = (h.headers a).magic

with_pages_magic :
    (g : Heap) (o : Option Pages) (a : ℕ)
    → (g.headers a).magic ≡ 0
    → magic_of (with_pages g o) a ≢ header_magic
unfolding magic_of
with_pages_magic g none a h = λ e. ground (arith, e)
with_pages_magic g (some p) a h = λ e. ground (arith, e, h)

link_is_no_magic : (chunks : List ℕ) → AllAligned chunks → pointer_to chunks % 2 ^ 32 ≢ header_magic
unfolding AllAligned
link_is_no_magic [] c = λ e. ground (arith, e)
link_is_no_magic (a ∷ chunks) c = λ e. ground (arith, e, c.0)

free_large_magic :
    (a size : ℕ) (h : Heap)
    → (h.headers a).magic ≡ 0
    → magic_of (free_large a size h) a ≢ header_magic
free_large_magic a size h cleared =
    with_pages_magic
      (record h {
        bytes_reserved = word (h.bytes_reserved + 2 ^ 64 - word (pages_for size * page_size));
      })
      (free_contiguous a (pages_for size) h.pages) a cleared

push_chunk_magic :
    (class a : ℕ) (h : Heap)
    → AllAligned (h.free_lists class)
    → ((push_chunk class a h).headers a).magic ≢ header_magic
push_chunk_magic class a h all = λ e. link_is_no_magic (h.free_lists class) all (
    sym (
      ap (λ (x : Header). x.magic)
        (put_here a (linked (pointer_to (h.free_lists class)) (h.headers a)) h.headers))
    ∙ e)

kfree_magic :
    (a : ℕ) (h : Heap) → IsAligned h → magic_of (kfree (a + header_size) h) a ≢ header_magic
unfolding kfree magic_of
kfree_magic a h all =
    let back : a + header_size - header_size ≡ a = omega arith in
    let pointer : (a + header_size == 0) ≡ false = ground arith in
    let class = (h.headers a).size_class in
    elim (Bool-cases ((h.headers a).magic == header_magic)) [
      | inr e ↦ rw (pointer, back, e) (λ f. ground (arith, f))
      | inl e ↦ elim (Bool-cases (class == class_large)) [
        | inl f ↦
            rw (pointer, back, e, f)
              (free_large_magic a (h.headers a).payload_size (released a h) (
                ap (λ (x : Header). x.magic)
                  (put_here a (record (h.headers a) { magic = 0 }) h.headers)))
        | inr f ↦ elim (Bool-cases (leb class_count class)) [
          | inl g ↦ rw (pointer, back, e, f, g) (λ k. ground (arith, k))
          | inr g ↦
              rw (pointer, back, e, f, g) (push_chunk_magic class a (released a h) (all class))
        ]
      ]
    ]

-- After kfree has freed an allocation, a second kfree of the same pointer panics: the link that the freed chunk
-- holds is no magic number, since the free chunks lie at multiples of 32.
pub kfree_twice :
    (a : ℕ) (h h' : Heap)
    → IsAligned h
    → kfree (a + header_size) h ≡ some h'
    → kfree (a + header_size) h' ≡ none
unfolding kfree magic_of
kfree_twice a h h' all freed =
    let back : a + header_size - header_size ≡ a = omega arith in
    let pointer : (a + header_size == 0) ≡ false = ground arith in
    let cleared : (h'.headers a).magic ≢ header_magic =
      λ e. kfree_magic a h all (ap (λ (o : Option Heap). magic_of o a) freed ∙ e) in
    let test : ((h'.headers a).magic == header_magic) ≡ false = ground (arith, cleared) in
    rw (pointer, back, test) refl

-- what kfree leaves, if it does not panic
unfoldable pub AlignedHeapOf : Option Heap → Type 0
AlignedHeapOf none = Unit {0}
AlignedHeapOf (some h) = IsAligned h

with_pages_aligned : (g : Heap) (o : Option Pages) → IsAligned g → AlignedHeapOf (with_pages g o)
unfolding AlignedHeapOf
with_pages_aligned g none all = tt
with_pages_aligned g (some p) all = all

-- kfree of a pointer as kmalloc answers them keeps the free chunks at multiples of 32.
pub kfree_aligned_chunks :
    (a : ℕ) (h : Heap) → a % 32 ≡ 0 → IsAligned h → AlignedHeapOf (kfree (a + header_size) h)
unfolding kfree AlignedHeapOf
kfree_aligned_chunks a h place all =
    let back : a + header_size - header_size ≡ a = omega arith in
    let pointer : (a + header_size == 0) ≡ false = ground arith in
    let class = (h.headers a).size_class in
    elim (Bool-cases ((h.headers a).magic == header_magic)) [
      | inr e ↦ rw (pointer, back, e) tt
      | inl e ↦ elim (Bool-cases (class == class_large)) [
        | inl f ↦
            rw (pointer, back, e, f)
              (with_pages_aligned
                (record (released a h) {
                  bytes_reserved = word (
                      (released a h).bytes_reserved
                      + 2 ^ 64
                      - word (pages_for (h.headers a).payload_size * page_size));
                })
                (free_contiguous a (pages_for (h.headers a).payload_size) h.pages) all)
        | inr f ↦ elim (Bool-cases (leb class_count class)) [
          | inl g ↦ rw (pointer, back, e, f, g) tt
          | inr g ↦
              rw (pointer, back, e, f, g) (push_chunk-IsAligned class a (released a h) place all)
        ]
      ]
    ]

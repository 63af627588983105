-- ===== src/Kernel/Heap/Blocks.antt =====
-- kernel/mm/heap.cpp: allocations and runs of pages beside each other.
use shit_os.Prelude.{
  ℕ, ◌+◌, ◌*◌, ◌/◌, ◌%◌, ◌^◌, ◌≤◌, ◌<◌, ◌≡◌, ◌≢◌, ◌⊎◌, refl, sym, arith, Bool, true, false, ◌&&◌,
  some, ltb, leb, ◌==◌, if◌then◌else◌,
}
use mathlib.Core.Path.{subst}
use shit_os.Kernel.Memory.Physical.{Pages, page_size}
use shit_os.Kernel.Memory.Count.{IsValid, hit}
use shit_os.Kernel.Memory.Contiguous.{Reserved}
use shit_os.Kernel.Heap.Alloc.{
  Header, Heap, header_magic, header_size, class_large, chunk_size, put, pages_for,
}
use shit_os.Kernel.Heap.Bytes.{covers, free_at}
use shit_os.Kernel.Heap.Refill.{used_at, IsApart}

-- the bytes that an allocation takes, by its header
abbrev pub extent : ℕ → ℕ → ℕ
extent class size = if class == class_large then pages_for size * page_size else chunk_size class

abbrev pub with_block : ℕ → ℕ → (ℕ → ℕ) → ℕ → ℕ
with_block a size live b = live b + covers a size b

abbrev pub header_for : ℕ → ℕ → Header
header_for class size = record { magic = header_magic; size_class = class; payload_size = size }

-- where a chunk of a class, or of pages, can be
abbrev pub IsPlace : ℕ → ℕ → Type 0
IsPlace a class = (class < 7) ⊎ ((class ≡ class_large) × (a % page_size ≡ 0))

pub pages_for-fits :
    (size : ℕ)
    → size + 4111 < 2 ^ 64
    → (size + header_size ≤ pages_for size * page_size) × (0 < pages_for size)
pages_for-fits size small = (ground (arith, small), ground (arith, small))

pub covers-run :
    (s n b : ℕ)
    → covers (s * page_size) (n * page_size) b
      ≡ (if leb s (b / page_size) && ltb (b / page_size) (s + n) then 1 else 0)
covers-run s n b = ground arith

pub run_room :
    (l f : ℕ) (t used used' : Bool)
    → l + f ≤ hit used
    → (t ≡ true → (used ≡ false) × (used' ≡ true))
    → (t ≡ false → used' ≡ used)
    → l + (if t then 1 else 0) + f ≤ hit used'
run_room l f true used used' room inside outside = ground (arith, room, inside refl)
run_room l f false used used' room inside outside = rw (outside refl) (omega (arith, room))

pub put_here : {A : Type 0} (a : ℕ) (x : A) (f : ℕ → A) → put a x f a ≡ x
put_here a x f = let same : (a == a) ≡ true = ground arith in rw (same) refl

pub put_other : {A : Type 0} (a : ℕ) (x : A) (f : ℕ → A) (i : ℕ) → i ≢ a → put a x f i ≡ f i
put_other a x f i apart = let other : (i == a) ≡ false = ground (arith, apart) in rw (other) refl

-- an allocation does not lie where a page is free
pub not_live :
    (live : ℕ → ℕ) (h : Heap) (a x : ℕ)
    → IsApart live h
    → h.pages.used (a / page_size) ≡ false
    → 0 < live x
    → x ≢ a
not_live live h a x v free l =
    λ same. let here = subst (λ (b : ℕ). 0 < live b) same l in ground (arith, here, v.apart a, free)

-- no room changes nothing
pub unchanged-IsApart :
    (live : ℕ → ℕ) (h : Heap) (p : Pages)
    → p ≡ h.pages
    → IsApart live h
    → IsApart live (record h { pages = p })
unchanged-IsApart live h p same v = record {
  pages = subst IsValid (sym same) v.pages;
  apart = λ b.
      subst (λ (q : Pages). live b + free_at h.free_lists b ≤ used_at q b) (sym same) (v.apart b);
}

-- a run of pages that were free is apart from everything
pub reserved-IsApart :
    (count s : ℕ) (p : Pages) (live : ℕ → ℕ) (h : Heap)
    → IsApart live h
    → Reserved count h.pages (some s, p)
    → IsApart (with_block (s * page_size) (count * page_size) live) (record h { pages = p })
reserved-IsApart count s p live h v a = record {
  pages = a.2.valid;
  apart = λ b. rw (covers-run s count b) (
      run_room (live b) (free_at h.free_lists b)
        (leb s (b / page_size) && ltb (b / page_size) (s + count)) (h.pages.used (b / page_size))
        (p.used (b / page_size)) (v.apart b)
        (λ t. (
          a.1 (b / page_size) (ground (arith, t)) (ground (arith, t)),
          ground (arith, t, a.0, a.2.bits (b / page_size)),
        ))
        (λ t. ground (arith, t, a.2.bits (b / page_size))));
}

pub chunk_not_live : (l f : ℕ) (used : Bool) → 0 < l → ¬ (l + f + 1 ≤ hit used)
chunk_not_live l f used some_live = λ room. ground (arith, some_live, room)

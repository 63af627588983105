-- ===== src/Kernel/Heap/Bytes.antt =====
-- kernel/mm/heap.cpp: how many chunks a byte lies in.
use shit_os.Prelude.{
  ℕ, zero, suc, ◌+◌, ◌*◌, ◌/◌, ◌≤◌, ◌<◌, ◌≡◌, refl, ap, arith, false, ◌&&◌, List, [], ◌∷◌, ltb, leb,
  ◌==◌, if◌then◌else◌, Bool-cases, inl, inr,
}
use shit_os.Kernel.Memory.Physical.{page_size}
use shit_os.Kernel.Heap.Alloc.{Heap, class_count, chunk_size, put, push_chunk, carve}

-- is a byte of so many from a place?
abbrev pub covers : ℕ → ℕ → ℕ → ℕ
covers a size b = if leb a b && ltb b (a + size) then 1 else 0

unfoldable pub count_in : ℕ → List ℕ → ℕ → ℕ
count_in size [] b = 0
count_in size (a ∷ chunks) b = covers a size b + count_in size chunks b

unfoldable pub count_classes : ℕ → (ℕ → List ℕ) → ℕ → ℕ
count_classes zero lists b = 0
count_classes (suc n) lists b = count_in (chunk_size n) (lists n) b + count_classes n lists b

-- the free chunks that a byte lies in
abbrev pub free_at : (ℕ → List ℕ) → ℕ → ℕ
free_at lists b = count_classes class_count lists b

count_classes-put_above :
    (n class : ℕ) (chunks : List ℕ) (lists : ℕ → List ℕ) (b : ℕ)
    → n ≤ class
    → count_classes n (put class chunks lists) b ≡ count_classes n lists b
unfolding count_classes
count_classes-put_above zero class chunks lists b below = refl
count_classes-put_above (suc n) class chunks lists b below =
    let other : (n == class) ≡ false = ground (arith, below) in
    rw (other, count_classes-put_above n class chunks lists b (omega (arith, below))) refl

pub count_classes-put :
    (n class : ℕ) (chunks : List ℕ) (lists : ℕ → List ℕ) (b : ℕ)
    → class < n
    → count_classes n (put class chunks lists) b + count_in (chunk_size class) (lists class) b
      ≡ count_classes n lists b + count_in (chunk_size class) chunks b
unfolding count_classes
count_classes-put zero class chunks lists b below = absurd (omega (arith, below))
count_classes-put (suc n) class chunks lists b below = elim (Bool-cases (n == class)) [
  | inl e ↦
      let same : n ≡ class = ground (arith, e) in
      rw (e, count_classes-put_above n class chunks lists b (omega (arith, same)))
        (rw (same) (omega arith))
  | inr e ↦
      rw (e) (omega (arith, count_classes-put n class chunks lists b (ground (arith, below, e))))
]

pub free_at-push_chunk :
    (class a : ℕ) (h : Heap) (b : ℕ)
    → class < 7
    → free_at (push_chunk class a h).free_lists b
      ≡ free_at h.free_lists b + covers a (chunk_size class) b
unfolding count_in
free_at-push_chunk class a h b below =
    omega (arith, count_classes-put 7 class (a ∷ h.free_lists class) h.free_lists b below)

-- the head of a list goes
pub free_at-pop :
    (class a : ℕ) (chunks : List ℕ) (lists : ℕ → List ℕ) (b : ℕ)
    → class < 7
    → lists class ≡ a ∷ chunks
    → free_at (put class chunks lists) b + covers a (chunk_size class) b ≡ free_at lists b
unfolding count_in
free_at-pop class a chunks lists b below same =
    let here : count_in (chunk_size class) (lists class) b
        ≡ covers a (chunk_size class) b + count_in (chunk_size class) chunks b =
      ap (λ (xs : List ℕ). count_in (chunk_size class) xs b) same in
    omega (arith, here, count_classes-put 7 class chunks lists b below)

pub covers_self : (a size : ℕ) → 0 < size → covers a size a ≡ 1
covers_self a size some_bytes = ground (arith, some_bytes)

pub covers-add : (a n k b : ℕ) → covers a n b + covers (a + n) k b ≡ covers a (n + k) b
covers-add a n k b = ground arith

pub free_at-carve :
    (chunks a class : ℕ) (h : Heap) (b : ℕ)
    → class < 7
    → free_at (carve chunks a class h).free_lists b
      ≡ free_at h.free_lists b + covers a (chunks * chunk_size class) b
unfolding carve
free_at-carve zero a class h b below = ground arith
free_at-carve (suc chunks) a class h b below =
    let size = chunk_size class in
    let more : suc chunks * size ≡ size + chunks * size = omega arith in
    rw (more) (
      omega (
        arith,
        free_at-carve chunks (a + size) class (push_chunk class a h) b below,
        free_at-push_chunk class a h b below,
        covers-add a size (chunks * size) b,
      ))

-- a page is carved to its end
pub chunks_of_page :
    (class : ℕ)
    → class < 7
    → (page_size / chunk_size class * chunk_size class ≡ page_size)
      × (0 < page_size / chunk_size class)
chunks_of_page zero below = (refl, omega arith)
chunks_of_page (suc zero) below = (refl, omega arith)
chunks_of_page (suc (suc zero)) below = (refl, omega arith)
chunks_of_page (suc (suc (suc zero))) below = (refl, omega arith)
chunks_of_page (suc (suc (suc (suc zero)))) below = (refl, omega arith)
chunks_of_page (suc (suc (suc (suc (suc zero))))) below = (refl, omega arith)
chunks_of_page (suc (suc (suc (suc (suc (suc zero)))))) below = (refl, omega arith)
chunks_of_page (suc (suc (suc (suc (suc (suc (suc class))))))) below = absurd (omega (arith, below))

pub covers-page :
    (page b : ℕ) → covers (page * page_size) page_size b ≡ (if b / page_size == page then 1 else 0)
covers-page page b = ground arith

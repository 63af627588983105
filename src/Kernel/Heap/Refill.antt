-- ===== src/Kernel/Heap/Refill.antt =====
-- kernel/mm/heap.cpp: no byte lies in two chunks, and `refill_class` keeps that.
use shit_os.Prelude.{
  ℕ, zero, suc, ◌+◌, ◌*◌, ◌/◌, ◌≤◌, ◌<◌, ◌≡◌, ◌∙◌, refl, sym, ap, arith, Bool, true, false, Option,
  none, some, ◌==◌, if◌then◌else◌, Bool-cases, inl, inr,
}
use mathlib.Core.Path.{subst}
use shit_os.Kernel.Memory.Physical.{Pages, page_size, set_bit, allocate_page}
use shit_os.Kernel.Memory.Count.{IsValid, hit}
use shit_os.Kernel.Memory.Allocate.{
  Answered, AllUsed, allocate_page-Answered, allocate_page-IsValid,
}
use shit_os.Kernel.Heap.Alloc.{Heap, chunk_size, push_chunk, carve, carved, refill_class, is_empty}
use shit_os.Kernel.Heap.Bytes.{covers, free_at, free_at-carve, chunks_of_page, covers-page}

-- is a byte in a used page?
abbrev pub used_at : Pages → ℕ → ℕ
used_at p b = hit (p.used (b / page_size))

-- `live` counts the allocations that each byte lies in: they and the free chunks are apart from each other,
-- in pages that are used
pub record IsApart (live : ℕ → ℕ) (h : Heap) : Type 0 where
  pub pages : IsValid h.pages
  pub apart : (b : ℕ) → live b + free_at h.free_lists b ≤ used_at h.pages b

-- the headers of allocations stay as they are
abbrev pub Keeps : (ℕ → ℕ) → Heap → Heap → Type 0
Keeps live h h' = (a : ℕ) → 0 < live a → h'.headers a ≡ h.headers a

pub chunk_size_positive : (class : ℕ) → 32 ≤ chunk_size class
chunk_size_positive zero = omega arith
chunk_size_positive (suc zero) = omega arith
chunk_size_positive (suc (suc zero)) = omega arith
chunk_size_positive (suc (suc (suc zero))) = omega arith
chunk_size_positive (suc (suc (suc (suc zero)))) = omega arith
chunk_size_positive (suc (suc (suc (suc (suc zero))))) = omega arith
chunk_size_positive (suc (suc (suc (suc (suc (suc class)))))) = omega arith

carve-pages : (chunks a class : ℕ) (h : Heap) → (carve chunks a class h).pages ≡ h.pages
unfolding carve
carve-pages zero a class h = refl
carve-pages (suc chunks) a class h =
    carve-pages chunks (a + chunk_size class) class (push_chunk class a h)

carve-headers :
    (chunks a class : ℕ) (h : Heap) (x : ℕ)
    → covers a (chunks * chunk_size class) x ≡ 0
    → (carve chunks a class h).headers x ≡ h.headers x
unfolding carve
carve-headers zero a class h x out = refl
carve-headers (suc chunks) a class h x out =
    let size = chunk_size class in
    let more : suc chunks * size ≡ size + chunks * size = omega arith in
    let wide = chunk_size_positive class in
    let other : (x == a) ≡ false = ground (arith, out, more, wide) in
    let later : covers (a + size) (chunks * size) x ≡ 0 = ground (arith, out, more, wide) in
    carve-headers chunks (a + size) class (push_chunk class a h) x later ∙ (rw (other) refl)

carve_not_empty :
    (chunks a class : ℕ) (h : Heap)
    → is_empty (h.free_lists class) ≡ false
    → is_empty ((carve chunks a class h).free_lists class) ≡ false
unfolding carve
carve_not_empty zero a class h some_chunk = some_chunk
carve_not_empty (suc chunks) a class h some_chunk =
    carve_not_empty chunks (a + chunk_size class) class (push_chunk class a h)
      (let same : (class == class) ≡ true = ground arith in rw (same) refl)

carve_fills :
    (chunks a class : ℕ) (h : Heap)
    → 0 < chunks
    → is_empty ((carve chunks a class h).free_lists class) ≡ false
unfolding carve
carve_fills zero a class h many = absurd (omega (arith, many))
carve_fills (suc chunks) a class h many =
    carve_not_empty chunks (a + chunk_size class) class (push_chunk class a h)
      (let same : (class == class) ≡ true = ground arith in rw (same) refl)

-- what `refill_class` leaves: chunks of the class, or no page was free
abbrev pub Refilled : ℕ → (ℕ → ℕ) → Heap → Bool × Heap → Type 0
Refilled class live h (true, h') =
    IsApart live h' × Keeps live h h' × (is_empty (h'.free_lists class) ≡ false)
Refilled class live h (false, h') =
    (AllUsed 0 h.pages.total h.pages.used × (h'.pages ≡ h.pages) × (h'.free_lists ≡ h.free_lists))
    × IsApart live h'
    × Keeps live h h'

page_room :
    (l f page b : ℕ) (used : ℕ → Bool)
    → used page ≡ false
    → l + f ≤ hit (used (b / page_size))
    → l + (f + covers (page * page_size) page_size b) ≤ hit (set_bit page used (b / page_size))
page_room l f page b used free room =
    rw (covers-page page b) (elim (Bool-cases (b / page_size == page)) [
      | inl e ↦
          let here : b / page_size ≡ page = ground (arith, e) in
          let none_there : l + f ≤ hit (used page) =
            subst (λ (i : ℕ). l + f ≤ hit (used i)) here room in
          rw (e) (ground (arith, none_there, free))
      | inr e ↦ rw (e) (omega (arith, room))
    ])

other_page :
    (l f page i : ℕ) (used : ℕ → Bool)
    → used page ≡ false
    → 0 < l
    → l + f ≤ hit (used i)
    → ◌≡◌ {A = ℕ} (if i == page then 1 else 0) 0
other_page l f page i used free some_live room = elim (Bool-cases (i == page)) [
  | inl e ↦
      let there : l + f ≤ hit (used page) =
        subst (λ (j : ℕ). l + f ≤ hit (used j)) (ground (arith, e)) room in
      absurd (ground (arith, there, free, some_live))
  | inr e ↦ rw (e) refl
]

carved-Refilled :
    (class : ℕ) (live : ℕ → ℕ) (h : Heap) (r : Option ℕ × Pages)
    → class < 7
    → IsApart live h
    → Answered h.pages r
    → IsValid r.1
    → Refilled class live h (carved class r h)
carved-Refilled class live h (none, p) below v a w = (
  (a.1, a.0, refl),
  record {
    pages = w;
    apart = λ b.
        subst (λ (q : Pages). live b + free_at h.free_lists b ≤ used_at q b) (sym a.0) (v.apart b);
  },
  λ x l. refl,
)
carved-Refilled class live h (some page, p) below v a w =
    let size = chunk_size class in
    let h' : Heap = record h { pages = p } in
    let whole = (chunks_of_page class below).0 in
    let filled = carve (page_size / size) (page * page_size) class h' in
    let same : filled.pages ≡ p = carve-pages (page_size / size) (page * page_size) class h' in
    let bits : (b : ℕ) → p.used b ≡ set_bit page h.pages.used b =
      λ b. ap (λ (u : ℕ → Bool). u b) a.3 in
    (
      record {
        pages = subst IsValid (sym same) w;
        apart = λ b.
            let free : free_at filled.free_lists b
                ≡ free_at h.free_lists b + covers (page * page_size) page_size b =
              free_at-carve (page_size / size) (page * page_size) class h' b below
              ∙ ap (λ (n : ℕ). free_at h.free_lists b + covers (page * page_size) n b) whole in
            let used : used_at filled.pages b ≡ hit (set_bit page h.pages.used (b / page_size)) =
              ap (λ (q : Pages). used_at q b) same ∙ ap hit (bits (b / page_size)) in
            rw (used, free)
              (page_room (live b) (free_at h.free_lists b) page b h.pages.used a.1 (v.apart b));
      },
      λ x l. carve-headers (page_size / size) (page * page_size) class h' x (
          ap (λ (n : ℕ). covers (page * page_size) n x) whole
          ∙ (covers-page page x
              ∙ other_page (live x) (free_at h.free_lists x) page (x / page_size) h.pages.used a.1 l
                  (v.apart x))),
      carve_fills (page_size / size) (page * page_size) class h' (chunks_of_page class below).1,
    )

pub refill_class-Refilled :
    (class : ℕ) (live : ℕ → ℕ) (h : Heap)
    → class < 7
    → IsApart live h
    → Refilled class live h (refill_class class h)
refill_class-Refilled class live h below v =
    carved-Refilled class live h (allocate_page h.pages) below v (allocate_page-Answered h.pages)
      (allocate_page-IsValid h.pages v.pages)

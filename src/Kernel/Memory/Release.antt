-- ===== src/Kernel/Memory/Release.antt =====
-- kernel/mm/physical.cpp: runs of pages given back.
use shit_os.Prelude.{
  ℕ, zero, suc, ◌+◌, ◌*◌, ◌-◌, ◌%◌, ◌^◌, ◌/◌, ◌≤◌, ◌<◌, ◌≡◌, refl, arith, Bool, true, false, Option,
  none, some, ltb, leb, ◌==◌, Bool-cases, inl, inr,
}
use shit_os.Kernel.Memory.Physical.{
  Pages, page_size, give_page, allocate_contiguous, free_loop, hint_lowered, free_contiguous,
}
use shit_os.Kernel.Memory.Count.{IsValid, Marked, give_page-IsValid, in_use}
use shit_os.Kernel.Memory.Contiguous.{AllFree, Reserved, allocate_contiguous-Reserved}

-- what freeing a range leaves: the panic is for a range with a free page
abbrev pub Released : ℕ → ℕ → Pages → Option Pages → Type 0
Released first count p none =
    ¬ ((j : ℕ) → first ≤ j → j < first + count → j < p.total → p.used j ≡ true)
Released first count p (some p') =
    ((j : ℕ) → first ≤ j → j < first + count → j < p.total → p.used j ≡ true)
    × Marked false first count p p'

Released-step :
    (i count : ℕ) (p : Pages) (r : Option Pages)
    → i < p.total
    → p.used i ≡ true
    → Released (i + 1) count (give_page i p) r
    → Released i (suc count) p r
Released-step i count p none l u h = λ f. h (λ j a b c. ground (arith, f j))
Released-step i count p (some p') l u h = (
  λ j a b c. elim (Bool-cases (j == i)) [
    | inl e ↦ ground (arith, u)
    | inr e ↦ ground (arith, h.0 j)
  ],
  record { valid = h.1.valid; total = h.1.total; bits = λ j. ground (arith, h.1.bits j) },
)

pub free_loop-Released :
    (count i : ℕ) (p : Pages) → IsValid p → Released i count p (free_loop count i p)
unfolding free_loop
free_loop-Released zero i p v =
    (λ j a b c. ground arith, record { valid = v; total = refl; bits = λ j. ground arith })
free_loop-Released (suc count) i p v = elim (Bool-cases (ltb i p.total)) [
  | inr e ↦
      rw (e) (λ j a b c. ground arith, record { valid = v; total = refl; bits = λ j. ground arith })
  | inl e ↦ elim (Bool-cases (p.used i)) [
    | inl u ↦
        rw (e, u)
          (Released-step i count p (free_loop count (i + 1) (give_page i p)) (ground arith) u (
            free_loop-Released count (i + 1) (give_page i p)
              (give_page-IsValid i p u (ground arith) v)))
    | inr u ↦ rw (e, u) (λ f. ground (arith, f i))
  ]
]

hint_lowered-Released :
    (first count : ℕ) (p : Pages) (r : Option Pages)
    → Released first count p r
    → Released first count p (hint_lowered first r)
hint_lowered-Released first count p none h = h
hint_lowered-Released first count p (some p') h = (
  h.0,
  record {
    valid = record { small = h.1.valid.small; counted = h.1.valid.counted };
    total = h.1.total;
    bits = h.1.bits;
  },
)

-- On a valid allocator, for a range whose end is below 2^64, `free_contiguous` panics only when a page of the range, of those there are, is
-- free already; otherwise all of them were used, exactly they are free afterwards, and the allocator
-- stays valid.
pub free_contiguous-Released :
    (base count : ℕ) (p : Pages)
    → base / page_size + count < 2 ^ 64
    → IsValid p
    → Released (base / page_size) count p (free_contiguous base count p)
unfolding free_contiguous
free_contiguous-Released base count p below v =
    let rounds : (base / page_size + count) % 2 ^ 64 - base / page_size ≡ count =
      ground (arith, below) in
    elim (Bool-cases (leb p.total (base / page_size))) [
      | inl e ↦
          rw (e)
            (λ j a b c. ground arith, record { valid = v; total = refl; bits = λ j. ground arith })
      | inr e ↦
          rw (e, rounds)
            (hint_lowered-Released (base / page_size) count p (free_loop count (base / page_size) p)
              (free_loop-Released count (base / page_size) p v))
    ]

-- the pages as they were
pub record IsRestored (p q : Pages) : Type 0 where
  pub total : q.total ≡ p.total
  pub bits : (j : ℕ) → q.used j ≡ p.used j
  pub counted : q.used_pages ≡ p.used_pages

in_use-same : (n : ℕ) (f g : ℕ → Bool) → ((j : ℕ) → f j ≡ g j) → in_use n f ≡ in_use n g
unfolding in_use
in_use-same zero f g h = refl
in_use-same (suc n) f g h = rw (h n, in_use-same n f g h) refl

abbrev pub Restored : Pages → Option Pages → Type 0
Restored p none = ⊥
Restored p (some q) = IsRestored p q

pub Marked-Restored :
    (s count : ℕ) (p p' q : Pages)
    → IsValid p
    → s + count ≤ p.total
    → AllFree s (s + count) p.used
    → Marked true s count p p'
    → Marked false s count p' q
    → IsRestored p q
Marked-Restored s count p p' q v l f m h =
    let total : q.total ≡ p.total = ground (arith, m.total, h.total) in
    let bits : (j : ℕ) → q.used j ≡ p.used j =
      λ j. ground (arith, m.bits j, h.bits j, f j, m.total) in
    record {
      total = total;
      bits = bits;
      counted = rw (h.valid.counted, v.counted, total, in_use-same p.total q.used p.used bits) refl;
    }

Released-Restored :
    (s count : ℕ) (p p' : Pages) (r : Option Pages)
    → IsValid p
    → s + count ≤ p.total
    → AllFree s (s + count) p.used
    → Marked true s count p p'
    → Released s count p' r
    → Restored p r
Released-Restored s count p p' none v l f m h = h (λ j a b c. ground (arith, m.bits j, m.total))
Released-Restored s count p p' (some q) v l f m h = Marked-Restored s count p p' q v l f m h.1

-- after `allocate_contiguous`: its run can be freed, which restores the pages
abbrev pub IsUndone : ℕ → Pages → Option ℕ × Pages → Type 0
IsUndone count p (none, p') = p' ≡ p
IsUndone count p (some s, p') = Restored p (free_contiguous (s * page_size) count p')

Reserved-IsUndone :
    (count : ℕ) (p : Pages) (r : Option ℕ × Pages)
    → IsValid p
    → Reserved count p r
    → IsUndone count p r
Reserved-IsUndone count p (none, p') v a = a.0
Reserved-IsUndone count p (some s, p') v a =
    let same : (s * page_size) / page_size ≡ s = omega arith in
    Released-Restored s count p p' (free_contiguous (s * page_size) count p') v a.0 a.1 a.2 (
      rw (same) at (
        free_contiguous-Released (s * page_size) count p' (omega (arith, same, a.0, v.small))
          a.2.valid))

-- On a valid allocator, when `allocate_contiguous` answers a run of a count that is not 0, freeing that
-- address and count does not panic, and restores the number of pages, each bit of the bitmap and the
-- count of used pages; when it answers none, it has changed nothing.
pub free_contiguous-allocate_contiguous :
    (count : ℕ) (p : Pages) → 0 < count → IsValid p → IsUndone count p (allocate_contiguous count p)
free_contiguous-allocate_contiguous count p h v =
    Reserved-IsUndone count p (allocate_contiguous count p) v
      (allocate_contiguous-Reserved count p h v)

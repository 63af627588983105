-- ===== src/Kernel/Memory/Count.antt =====
-- kernel/mm/physical.cpp: the number of used pages against the bitmap.
use shit_os.Prelude.{
  ℕ, zero, suc, ◌+◌, ◌^◌, ◌<◌, ◌≡◌, refl, arith, Bool, true, false, ltb, if◌then◌else◌, Bool-cases,
  inl, inr,
}
use shit_os.Kernel.Memory.Physical.{
  Pages, take_page, give_page, set_bit, clear_bit, mark_used, mark_free,
}

abbrev pub hit : Bool → ℕ
hit true = 1
hit false = 0

-- how many of the first n pages are used
unfoldable pub in_use : ℕ → (ℕ → Bool) → ℕ
in_use zero used = 0
in_use (suc n) used = hit (used n) + in_use n used

-- The count is the number of set bits, and the number of pages is a number of 64 bits.
pub record IsValid (p : Pages) : Type 0 where
  pub small : p.total < 2 ^ 64
  pub counted : p.used_pages ≡ in_use p.total p.used

pub in_use-set_bit :
    (n i : ℕ) (used : ℕ → Bool)
    → used i ≡ false
    → in_use n (set_bit i used) ≡ in_use n used + hit (ltb i n)
unfolding in_use
in_use-set_bit zero i used e = ground arith
in_use-set_bit (suc n) i used e = ground (arith, in_use-set_bit n i used e)

pub in_use-clear_bit :
    (n i : ℕ) (used : ℕ → Bool)
    → used i ≡ true
    → in_use n (clear_bit i used) + hit (ltb i n) ≡ in_use n used
unfolding in_use
in_use-clear_bit zero i used e = ground arith
in_use-clear_bit (suc n) i used e = ground (arith, in_use-clear_bit n i used e)

pub take_page-IsValid :
    (i : ℕ) (p : Pages) → p.used i ≡ false → i < p.total → IsValid p → IsValid (take_page i p)
take_page-IsValid i p e h v = record {
  small = v.small;
  counted = ground (arith, in_use-set_bit p.total i p.used e);
}

pub give_page-IsValid :
    (i : ℕ) (p : Pages) → p.used i ≡ true → i < p.total → IsValid p → IsValid (give_page i p)
give_page-IsValid i p e h v = record {
  small = v.small;
  counted = ground (arith, in_use-clear_bit p.total i p.used e);
}

-- what an operation leaves alone
pub record Marked (bit : Bool) (first count : ℕ) (p p' : Pages) : Type 0 where
  pub valid : IsValid p'
  pub total : p'.total ≡ p.total
  pub bits :
      (j : ℕ)
      → p'.used j ≡ (
          if ltb j first
          then p.used j
          else if ltb j (first + count)
          then (if ltb j p.total then bit else p.used j)
          else p.used j)

pub mark_used-Marked :
    (count i : ℕ) (p : Pages) → IsValid p → Marked true i count p (mark_used count i p)
unfolding mark_used
mark_used-Marked zero i p v = record { valid = v; total = refl; bits = λ j. ground arith }
mark_used-Marked (suc count) i p v = elim (Bool-cases (ltb i p.total)) [
  | inr e ↦ record { valid = ground (arith, v); total = ground arith; bits = λ j. ground arith }
  | inl e ↦ elim (Bool-cases (p.used i)) [
    | inl u ↦
        let rest = mark_used-Marked count (i + 1) p v in
        record {
          valid = ground (arith, rest.valid);
          total = ground (arith, rest.total);
          bits = λ j. ground (arith, rest.bits j);
        }
    | inr u ↦
        let rest =
          mark_used-Marked count (i + 1) (take_page i p)
            (take_page-IsValid i p u (ground arith) v) in
        record {
          valid = ground (arith, rest.valid);
          total = ground (arith, rest.total);
          bits = λ j. ground (arith, rest.bits j);
        }
  ]
]

pub mark_free-Marked :
    (count i : ℕ) (p : Pages) → IsValid p → Marked false i count p (mark_free count i p)
unfolding mark_free
mark_free-Marked zero i p v = record { valid = v; total = refl; bits = λ j. ground arith }
mark_free-Marked (suc count) i p v = elim (Bool-cases (ltb i p.total)) [
  | inr e ↦ record { valid = ground (arith, v); total = ground arith; bits = λ j. ground arith }
  | inl e ↦ elim (Bool-cases (p.used i)) [
    | inr u ↦
        let rest = mark_free-Marked count (i + 1) p v in
        record {
          valid = ground (arith, rest.valid);
          total = ground (arith, rest.total);
          bits = λ j. ground (arith, rest.bits j);
        }
    | inl u ↦
        let rest =
          mark_free-Marked count (i + 1) (give_page i p)
            (give_page-IsValid i p u (ground arith) v) in
        record {
          valid = ground (arith, rest.valid);
          total = ground (arith, rest.total);
          bits = λ j. ground (arith, rest.bits j);
        }
  ]
]

-- ===== src/Kernel/Memory/Ranges.antt =====
-- kernel/mm/physical.cpp: ranges of addresses against pages.
use shit_os.Prelude.{
  ℕ, ◌+◌, ◌-◌, ◌*◌, ◌/◌, ◌%◌, ◌^◌, ◌≤◌, ◌<◌, ◌≡◌, ◌∙◌, refl, arith, Bool, true, false, min, leb,
  ◌==◌, if◌then◌else◌, Bool-cases, inl, inr, ◌⊎◌,
}
use shit_os.Kernel.Memory.Physical.{Pages, page_size, mark_used, mark_free, apply_to_range}
use shit_os.Kernel.Memory.Count.{IsValid, Marked, mark_used-Marked, mark_free-Marked}

-- the number of pages a range overlaps
abbrev pub covered : ℕ → ℕ → ℕ
covered base length =
    if length == 0 then 0 else (base + length + (page_size - 1)) / page_size - base / page_size

Marked-resized :
    (bit : Bool) (first count count' : ℕ) (p p' : Pages)
    → min (first + count) p.total ≡ min (first + count') p.total
    → Marked bit first count p p'
    → Marked bit first count' p p'
Marked-resized bit first count count' p p' e m = record {
  valid = m.valid;
  total = m.total;
  bits = λ j. m.bits j ∙ ground arith;
}

Marked-nothing :
    (bit : Bool) (first count : ℕ) (p : Pages)
    → IsValid p
    → (count ≡ 0) ⊎ (p.total ≤ first)
    → Marked bit first count p p
Marked-nothing bit first count p v (inl e) = record {
  valid = v;
  total = refl;
  bits = λ j. ground arith;
}
Marked-nothing bit first count p v (inr e) = record {
  valid = v;
  total = refl;
  bits = λ j. ground arith;
}

apply_to_range-Marked :
    (bit : Bool) (base length : ℕ) (operation : ℕ → ℕ → Pages → Pages) (p : Pages)
    → ((count first : ℕ) → Marked bit first count p (operation count first p))
    → base + length + page_size ≤ 2 ^ 64
    → IsValid p
    → Marked bit (base / page_size) (covered base length) p (apply_to_range base length operation p)
unfolding apply_to_range
apply_to_range-Marked bit base length operation p h below v =
    let first = base / page_size in
    let last = (base + length + (page_size - 1)) / page_size in
    let no_wrap : ((base + length) % 2 ^ 64 + (page_size - 1)) % 2 ^ 64
        ≡ base + length + (page_size - 1) =
      ground (arith, below) in
    rw (no_wrap) (elim (Bool-cases (length == 0)) [
      | inl e ↦ rw (e) (Marked-nothing bit first 0 p v (inl refl))
      | inr e ↦ elim (Bool-cases (leb p.total first)) [
        | inl l ↦ rw (e, l) (Marked-nothing bit first (last - first) p v (inr (ground arith)))
        | inr l ↦
            rw (e, l)
              (Marked-resized bit first (min last p.total - first) (last - first) p
                (operation (min last p.total - first) first p) (ground arith)
                (h (min last p.total - first) first))
      ]
    ])

pub reserve-Marked :
    (base length : ℕ) (p : Pages)
    → base + length + page_size ≤ 2 ^ 64
    → IsValid p
    → Marked true
        (base / page_size)
        (covered base length)
        p
        (apply_to_range base length mark_used p)
reserve-Marked base length p below v =
    apply_to_range-Marked true base length mark_used p
      (λ count first. mark_used-Marked count first p v) below v

pub return-Marked :
    (base length : ℕ) (p : Pages)
    → base + length + page_size ≤ 2 ^ 64
    → IsValid p
    → Marked false
        (base / page_size)
        (covered base length)
        p
        (apply_to_range base length mark_free p)
return-Marked base length p below v =
    apply_to_range-Marked false base length mark_free p
      (λ count first. mark_free-Marked count first p v) below v

-- On a valid allocator, when a usable range that is not empty, and ends a page below 2^64, starts inside a page that is managed, and
-- not at its start, then returning the range frees the whole page, the bytes before the range included.
pub apply_to_range_frees_partial :
    (base length : ℕ) (p : Pages)
    → base + length + page_size ≤ 2 ^ 64
    → IsValid p
    → 0 < length
    → 0 < base % page_size
    → base / page_size < p.total
    → (base / page_size * page_size < base)
      × ((apply_to_range base length mark_free p).used (base / page_size) ≡ false)
apply_to_range_frees_partial base length p below v h b t =
    let m = return-Marked base length p below v in
    (omega arith, m.bits (base / page_size) ∙ ground arith)

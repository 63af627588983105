-- ===== src/Libc/Search.antt =====
-- user/libc/src/stdlib.c: `bsearch`. What `compare(key, array + i * size)` returns is a function of
-- the index i.
use shit_os.Prelude.{
  ℕ, zero, suc, ◌+◌, ◌-◌, ◌/◌, ◌≤◌, ◌<◌, ◌≡◌, ◌⊎◌, refl, arith, Bool, true, false, Option, none,
  some, ltb, if◌then◌else◌, inl, inr,
}
use shit_os.Prelude.Int.{ℤ, pos, negsuc, ◌≤ℤ◌}

-- the next bounds: below the middle where the comparison was negative, above it where positive
abbrev narrowed : ℤ → ℕ → ℕ → ℕ → ℕ × ℕ
narrowed (negsuc n) low middle high = (low, middle)
narrowed (pos n) low middle high = (middle + 1, high)

abbrev is_zero : ℤ → Bool
is_zero (pos zero) = true
is_zero _ = false

-- `while (low < high)`: a round takes at least one from the distance
unfoldable pub bsearch_in : (ℕ → ℤ) → ℕ → ℕ → ℕ → Option ℕ
bsearch_in order zero low high = none
bsearch_in order (suc fuel) low high =
    let middle = low + (high - low) / 2 in
    let (low1, high1) = narrowed (order middle) low middle high in
    let more = bsearch_in order fuel low1 high1 in
    if ltb low high then (if is_zero (order middle) then some middle else more) else none

unfoldable pub bsearch : (ℕ → ℤ) → ℕ → Option ℕ
unfolding bsearch_in
bsearch order count = bsearch_in order count 0 count

abbrev pub sign : ℤ → ℤ
sign (negsuc n) = negsuc 0
sign (pos zero) = pos 0
sign (pos (suc n)) = pos 1

sign-cases : (o : ℤ) → (o ≡ pos 0) ⊎ ((n : ℕ) × (o ≡ negsuc n)) ⊎ ((n : ℕ) × (o ≡ pos (suc n)))
sign-cases (negsuc n) = inr (inl (n, refl))
sign-cases (pos zero) = inl refl
sign-cases (pos (suc n)) = inr (inr (n, refl))

module _ (order : ℕ → ℤ) (falls : (i j : ℕ) → i ≤ j → sign (order j) ≤ℤ sign (order i)) where
  bsearch_in_lem :
      (fuel low high i : ℕ)
      → low ≤ i
      → i < high
      → high - low ≤ fuel
      → order i ≡ pos 0
      → (j : ℕ) × (bsearch_in order fuel low high ≡ some j) × (j < high) × (order j ≡ pos 0)
  unfolding bsearch_in
  bsearch_in_lem zero low high i lo hi f e = absurd (omega arith)
  bsearch_in_lem (suc fuel) low high i lo hi f e =
      elim (sign-cases (order (low + (high - low) / 2))) [
        | inl zero_here ↦
            (low + (high - low) / 2, rw (open_bounds, zero_here) refl, omega arith, zero_here)
        | inr (inl (n, below)) ↦
            let (j, found, in_range, is_match) =
              bsearch_in_lem fuel low (low + (high - low) / 2) i lo
                (ground (arith, below, falls (low + (high - low) / 2) i)) (omega arith) e in
            (j, rw (open_bounds, below) found, omega arith, is_match)
        | inr (inr (n, above)) ↦
            let (j, found, in_range, is_match) =
              bsearch_in_lem fuel (low + (high - low) / 2 + 1) high i
                (ground (arith, above, falls i (low + (high - low) / 2))) hi (omega arith) e in
            (j, rw (open_bounds, above) found, in_range, is_match)
      ]
    where
      open_bounds : ltb low high ≡ true
      open_bounds = ground arith

  -- `bsearch` returns a place where the comparison is zero, if there is one in the array and the
  -- array is sorted: the sign of the comparison does not rise along it.
  pub bsearch_lem :
      (count i : ℕ)
      → i < count
      → order i ≡ pos 0
      → (j : ℕ) × (bsearch order count ≡ some j) × (j < count) × (order j ≡ pos 0)
  unfolding bsearch
  bsearch_lem count i h e = bsearch_in_lem count 0 count i (omega arith) h (omega arith) e

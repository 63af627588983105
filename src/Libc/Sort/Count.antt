-- ===== src/Libc/Sort/Count.antt =====
-- user/libc/src/stdlib.c: qsort keeps the elements.
use shit_os.Prelude.{
  ℕ, zero, suc, ◌+◌, ◌-◌, ◌≤◌, ◌<◌, ◌≡◌, ◌∙◌, refl, arith, Bool, true, false, ◌||◌, ◌&&◌, List, [],
  ◌∷◌, ltb, leb, ◌==◌, if◌then◌else◌, Bool-cases, inl, inr,
}
use shit_os.Libc.Sort.{swapped, sink, pass_from, pass, passes, qsort, gaps}

module _ {A : Type 0} (chosen : A → Bool) where
  -- how many of the first n elements pass a test
  unfoldable pub count_of : ℕ → (ℕ → A) → ℕ
  count_of zero array = 0
  count_of (suc n) array = (if chosen (array n) then 1 else 0) + count_of n array

  count_of-above :
      (n i : ℕ) (v : A) (array : ℕ → A)
      → n ≤ i
      → count_of n (λ k. if k == i then v else array k) ≡ count_of n array
  unfolding count_of
  count_of-above zero i v array h = refl
  count_of-above (suc n) i v array h =
      let apart : (n == i) ≡ false = ground arith in
      rw (apart, count_of-above n i v array (omega arith)) refl

  count_of-changed :
      (n i : ℕ) (v : A) (array : ℕ → A)
      → i < n
      → count_of n (λ k. if k == i then v else array k) + (if chosen (array i) then 1 else 0)
        ≡ count_of n array + (if chosen v then 1 else 0)
  unfolding count_of
  count_of-changed zero i v array h = absurd (omega arith)
  count_of-changed (suc n) i v array h = elim (Bool-cases (n == i)) [
    | inl e ↦
        let same : n ≡ i = ground arith in
        rw (e, count_of-above n i v array (omega (arith, same)), same) (omega arith)
    | inr e ↦ rw (e) (omega (arith, count_of-changed n i v array (ground arith)))
  ]

  -- The elements of a pass are those before it: whatever the test, as many pass it.
  count_of-swapped :
      (n left right : ℕ) (array : ℕ → A)
      → left < n
      → right < n
      → left < right
      → count_of n (swapped left right array) ≡ count_of n array
  count_of-swapped n left right array l r d =
      let there : ℕ → A = λ k. if k == right then array left else array k in
      let one = count_of-changed n right (array left) array r in
      let two = count_of-changed n left (array right) there l in
      let apart : (left == right) ≡ false = ground arith in omega (arith, one, rw (apart) at two)

  count_of-sink :
      (exceeds : A → A → Bool) (n gap rounds j : ℕ) (array : ℕ → A)
      → 0 < gap
      → j < n
      → count_of n (sink exceeds gap rounds j array) ≡ count_of n array
  unfolding sink
  count_of-sink exceeds n gap zero j array g h = refl
  count_of-sink exceeds n gap (suc rounds) j array g h = elim (Bool-cases (ltb j gap)) [
    | inl e ↦ rw (e) refl
    | inr e ↦ elim (Bool-cases (exceeds (array (j - gap)) (array j))) [
      | inr x ↦ rw (e, x) refl
      | inl x ↦
          let array' = swapped (j - gap) j array in
          rw (e, x)
            (count_of-sink exceeds n gap rounds (j - gap) array' g (omega arith)
              ∙ count_of-swapped n (j - gap) j array (omega arith) h (ground arith))
    ]
  ]

  count_of-pass_from :
      (exceeds : A → A → Bool) (n gap rounds i : ℕ) (array : ℕ → A)
      → 0 < gap
      → i + rounds ≤ n
      → count_of n (pass_from exceeds gap rounds i array) ≡ count_of n array
  unfolding pass_from
  count_of-pass_from exceeds n gap zero i array g h = refl
  count_of-pass_from exceeds n gap (suc rounds) i array g h =
      count_of-pass_from exceeds n gap rounds (i + 1) (sink exceeds gap i i array) g (omega arith)
      ∙ count_of-sink exceeds n gap i i array g (omega arith)

  count_of-pass :
      (exceeds : A → A → Bool) (n gap : ℕ) (array : ℕ → A)
      → 0 < gap
      → count_of n (pass exceeds n gap array) ≡ count_of n array
  count_of-pass exceeds n gap array g = elim (Bool-cases (leb n gap)) [
    | inl e ↦ rw (e) refl
    | inr e ↦ rw (e) (count_of-pass_from exceeds n gap (n - gap) gap array g (ground arith))
  ]

  all_positive : List ℕ → Bool
  all_positive [] = true
  all_positive (gap ∷ rest) = ltb 0 gap && all_positive rest

  count_of-passes :
      (exceeds : A → A → Bool) (n : ℕ) (list : List ℕ) (array : ℕ → A)
      → all_positive list ≡ true
      → count_of n (passes exceeds n list array) ≡ count_of n array
  unfolding passes all_positive
  count_of-passes exceeds n [] array h = refl
  count_of-passes exceeds n (gap ∷ rest) array h =
      count_of-passes exceeds n rest (pass exceeds n gap array) (ground (arith, h))
      ∙ count_of-pass exceeds n gap array (ground (arith, h))

  -- `qsort` keeps the elements, whatever the comparison function returns: of those of the array, as many
  -- pass any test before as after.
  pub count_of-qsort :
      (exceeds : A → A → Bool) (n size : ℕ) (array : ℕ → A)
      → count_of n (qsort exceeds n size array) ≡ count_of n array
  unfolding qsort all_positive
  count_of-qsort exceeds n size array = elim (Bool-cases (ltb n 2 || (size == 0))) [
    | inl e ↦ rw (e) refl
    | inr e ↦ rw (e) (count_of-passes exceeds n gaps array refl)
  ]

-- ===== src/Libc/Sort/Order.antt =====
-- user/libc/src/stdlib.c: qsort puts the elements in order.
use shit_os.Prelude.{
  ℕ, zero, suc, ◌+◌, ◌-◌, ◌≤◌, ◌<◌, ◌≡◌, arith, Bool, true, false, ltb, leb, ◌==◌, Bool-cases, inl,
  inr,
}
use shit_os.Libc.Sort.Count.{count_of, count_of-qsort}
use shit_os.Libc.Sort.{swapped, sink, pass_from, pass, passes, qsort}

-- what a comparison function promises: of two elements at most one exceeds the other, and what does not
-- exceed goes through
pub record IsOrder {A : Type 0} (exceeds : A → A → Bool) : Type 0 where
  pub asym : (a b : A) → exceeds a b ≡ true → exceeds b a ≡ false
  pub through : (a b c : A) → exceeds a b ≡ false → exceeds b c ≡ false → exceeds a c ≡ false

module _ {A : Type 0} (exceeds : A → A → Bool) where
  -- no element exceeds a later one, of the first n
  abbrev pub IsSorted : ℕ → (ℕ → A) → Type 0
  IsSorted n array = (i k : ℕ) → i < k → k < n → exceeds (array i) (array k) ≡ false

  -- sorted but for the element at j, which no later one falls short of
  abbrev IsSinking : ℕ → ℕ → (ℕ → A) → Type 0
  IsSinking n j array =
      (i k : ℕ) → i < k → k < n → (k == j) ≡ false → exceeds (array i) (array k) ≡ false

  IsSinking-settled :
      (n j : ℕ) (array : ℕ → A)
      → IsOrder exceeds
      → 1 ≤ j
      → j < n
      → exceeds (array (j - 1)) (array j) ≡ false
      → IsSinking n j array
      → IsSorted n array
  IsSinking-settled n j array o l h x s i k d b = elim (Bool-cases (k == j)) [
    | inr e ↦ s i k d b e
    | inl e ↦
        let last : k ≡ j = ground arith in
        elim (Bool-cases (i == j - 1)) [
          | inl f ↦ let first : i ≡ j - 1 = ground arith in rw (last, first) x
          | inr f ↦
              let below : exceeds (array i) (array (j - 1)) ≡ false =
                s i (j - 1) (ground (arith, last)) (omega arith) (ground arith) in
              rw (last) (o.through (array i) (array (j - 1)) (array j) below x)
        ]
  ]

  IsSinking-swapped :
      (n j : ℕ) (array : ℕ → A)
      → IsOrder exceeds
      → 1 ≤ j
      → j < n
      → exceeds (array (j - 1)) (array j) ≡ true
      → IsSinking n j array
      → IsSinking n (j - 1) (swapped (j - 1) j array)
  IsSinking-swapped n j array o l h x s i k d b e = elim (Bool-cases (k == j)) [
    | inl at_j ↦
        let last : k ≡ j = ground arith in
        elim (Bool-cases (i == j - 1)) [
          | inl f ↦ rw (e, at_j, f) (o.asym (array (j - 1)) (array j) x)
          | inr f ↦
              let before : (i == j) ≡ false = ground (arith, last) in
              rw (e, at_j, f, before)
                (s i (j - 1) (ground (arith, last)) (omega arith) (ground arith))
        ]
    | inr after ↦ elim (Bool-cases (i == j - 1)) [
      | inl f ↦ rw (e, after, f) (s j k (ground arith) b after)
      | inr f ↦ elim (Bool-cases (i == j)) [
        | inl g ↦ rw (e, after, f, g) (s (j - 1) k (ground arith) b after)
        | inr g ↦ rw (e, after, f, g) (s i k d b after)
      ]
    ]
  ]

  sink-IsSorted :
      (n rounds j : ℕ) (array : ℕ → A)
      → IsOrder exceeds
      → j ≤ rounds
      → j < n
      → IsSinking n j array
      → IsSorted n (sink exceeds 1 rounds j array)
  unfolding sink
  sink-IsSorted n zero j array o r h s = λ i k d b. s i k d b (ground arith)
  sink-IsSorted n (suc rounds) j array o r h s = elim (Bool-cases (ltb j 1)) [
    | inl e ↦ rw (e) (λ i k d b. s i k d b (ground arith))
    | inr e ↦ elim (Bool-cases (exceeds (array (j - 1)) (array j))) [
      | inr x ↦ rw (e, x) (IsSinking-settled n j array o (ground arith) h x s)
      | inl x ↦
          let array' = swapped (j - 1) j array in
          rw (e, x)
            (sink-IsSorted n rounds (j - 1) array' o (omega arith) (omega arith)
              (IsSinking-swapped n j array o (ground arith) h x s))
    ]
  ]

  pass_from-IsSorted :
      (rounds i : ℕ) (array : ℕ → A)
      → IsOrder exceeds
      → IsSorted i array
      → IsSorted (i + rounds) (pass_from exceeds 1 rounds i array)
  unfolding pass_from
  pass_from-IsSorted zero i array o s = λ a b d h. s a b d (omega arith)
  pass_from-IsSorted (suc rounds) i array o s =
      let sinking : IsSinking (i + 1) i array = λ a b d h e. s a b d (ground arith) in
      let one = sink-IsSorted (i + 1) i i array o (omega arith) (omega arith) sinking in
      let rest = pass_from-IsSorted rounds (i + 1) (sink exceeds 1 i i array) o one in
      λ a b d h. rest a b d (omega arith)

  pass-IsSorted :
      (n : ℕ) (array : ℕ → A) → IsOrder exceeds → 2 ≤ n → IsSorted n (pass exceeds n 1 array)
  pass-IsSorted n array o h =
      let several : leb n 1 ≡ false = ground arith in
      let single : IsSorted 1 array = λ a b d l. absurd (omega arith) in
      let all = pass_from-IsSorted (n - 1) 1 array o single in
      rw (several) (λ a b d l. all a b d (omega arith))

  qsort-IsSorted :
      (n size : ℕ) (array : ℕ → A)
      → 0 < size
      → IsOrder exceeds
      → IsSorted n (qsort exceeds n size array)
  unfolding qsort passes
  qsort-IsSorted n size array h o = elim (Bool-cases (ltb n 2)) [
    | inl e ↦ rw (e) (λ a b d l. absurd (ground arith))
    | inr e ↦
        let some_size : (size == 0) ≡ false = ground arith in
        rw (e, some_size) (pass-IsSorted n _ o (ground arith))
  ]

  -- `qsort`, given elements of some size and a comparison function that orders them, leaves an array in
  -- which no element exceeds a later one, and which has the elements of the one before: of the two, as
  -- many elements pass any test.
  pub qsort_lem :
      (n size : ℕ) (array : ℕ → A)
      → 0 < size
      → IsOrder exceeds
      → IsSorted n (qsort exceeds n size array)
        × ((chosen : A → Bool)
            → count_of chosen n (qsort exceeds n size array) ≡ count_of chosen n array)
  qsort_lem n size array h o =
      (qsort-IsSorted n size array h o, λ chosen. count_of-qsort chosen exceeds n size array)

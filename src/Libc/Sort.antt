-- ===== src/Libc/Sort.antt =====
-- user/libc/src/stdlib.c: qsort, a Shell sort. An array is a function from indices to its elements, and
-- `exceeds` is whether the comparison function returns a positive number.
use shit_os.Prelude.{
  ℕ, zero, suc, ◌+◌, ◌-◌, Bool, true, false, ◌||◌, List, [], ◌∷◌, ltb, leb, ◌==◌, if◌then◌else◌,
}
pub mod Count
pub mod Order

-- the gaps, in the order of the passes
abbrev pub gaps : List ℕ
gaps = 701 ∷ 301 ∷ 132 ∷ 57 ∷ 23 ∷ 10 ∷ 4 ∷ 1 ∷ []

module _ {A : Type 0} where
  -- an element is swapped byte by byte, so whole
  abbrev pub swapped : ℕ → ℕ → (ℕ → A) → ℕ → A
  swapped left right array k =
      if k == left then array right else if k == right then array left else array k

  -- the innermost loop, from j down; each round takes at least one off j
  unfoldable pub sink : (A → A → Bool) → ℕ → ℕ → ℕ → (ℕ → A) → ℕ → A
  sink exceeds gap zero j array = array
  sink exceeds gap (suc rounds) j array =
      let rest = sink exceeds gap rounds (j - gap) (swapped (j - gap) j array) in
      if ltb j gap then array else if exceeds (array (j - gap)) (array j) then rest else array

  -- the loop over i, on the rounds it makes
  unfoldable pub pass_from : (A → A → Bool) → ℕ → ℕ → ℕ → (ℕ → A) → ℕ → A
  pass_from exceeds gap zero i array = array
  pass_from exceeds gap (suc rounds) i array =
      pass_from exceeds gap rounds (i + 1) (sink exceeds gap i i array)

  abbrev pub pass : (A → A → Bool) → ℕ → ℕ → (ℕ → A) → ℕ → A
  pass exceeds count gap array =
      if leb count gap then array else pass_from exceeds gap (count - gap) gap array

  unfoldable pub passes : (A → A → Bool) → ℕ → List ℕ → (ℕ → A) → ℕ → A
  passes exceeds count [] array = array
  passes exceeds count (gap ∷ rest) array = passes exceeds count rest (pass exceeds count gap array)

  unfoldable pub qsort : (A → A → Bool) → ℕ → ℕ → (ℕ → A) → ℕ → A
  qsort exceeds count size array =
      if ltb count 2 || (size == 0) then array else passes exceeds count gaps array

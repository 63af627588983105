-- ===== src/Libc/Heap/Count.antt =====
-- user/libc/src/stdlib.c: the size classes against the free blocks of the chain, by counting.
use shit_os.Prelude.{
  ℕ, ◌+◌, ◌-◌, ◌≤◌, ◌≡◌, refl, arith, Bool, true, false, not, ◌&&◌, List, [], ◌∷◌, ◌==◌, Bool-cases,
  inl, inr,
}
use shit_os.Libc.Heap.Blocks.{
  Block, View, Bins, header_size, bin_index, bin_insert, bin_remove, unlink, adjacent, joined,
  merge_with_next, merge_after, unwind,
}
use shit_os.Libc.Heap.Chain.{IsBlock, Above, Below}

abbrev pub hit : Bool → ℕ
hit true = 1
hit false = 0

abbrev pub total : (Block → ℕ) → List Block → ℕ
total f [] = 0
total f (b ∷ bs) = f b + total f bs

-- of all the chain but the block in view
abbrev pub others : (Block → ℕ) → View → ℕ
others f v = total f v.before + total f v.after

pub total-unwind :
    (f : Block → ℕ) (before chain : List Block)
    → total f (unwind before chain) ≡ total f before + total f chain
unfolding unwind
total-unwind f [] chain = omega arith
total-unwind f (b ∷ before) chain = omega (arith, total-unwind f before (b ∷ chain))

-- how often a list has an address
abbrev pub listed : ℕ → List ℕ → ℕ
listed a [] = 0
listed a (x ∷ xs) = hit (x == a) + listed a xs

-- the free blocks of one class at an address, and those in use of one size at an address
abbrev pub free_here : ℕ → ℕ → Block → ℕ
free_here k a b = hit (b.is_free && (k == bin_index b.size) && (b.address == a))

abbrev pub used_here : ℕ → ℕ → Block → ℕ
used_here a s b = hit (not b.is_free && (b.address == a) && (b.size == s))

pub listed-unlink : (a x : ℕ) (xs : List ℕ) → listed a (unlink x xs) ≡ listed a xs - hit (x == a)
unfolding unlink
listed-unlink a x [] = ground arith
listed-unlink a x (y ∷ xs) = ground (arith, listed-unlink a x xs)

pub listed-bin_remove :
    (b : Block) (bins : Bins) (k a : ℕ)
    → b.is_free ≡ true
    → listed a (bin_remove b bins k) ≡ listed a (bins k) - free_here k a b
unfolding bin_remove
listed-bin_remove b bins k a e = elim (Bool-cases (k == bin_index b.size)) [
  | inl same ↦ rw (same, e) (listed-unlink a b.address (bins k))
  | inr other ↦ rw (other, e) (omega arith)
]

pub listed-bin_insert :
    (b : Block) (bins : Bins) (k a : ℕ)
    → b.is_free ≡ true
    → listed a (bin_insert b bins k) ≡ free_here k a b + listed a (bins k)
unfolding bin_insert
listed-bin_insert b bins k a e = elim (Bool-cases (k == bin_index b.size)) [
  | inl same ↦ rw (same, e) refl
  | inr other ↦ rw (other, e) (omega arith)
]

-- a block as in use, and as free
abbrev pub used : Block → Block
used b = record b { is_free = false }

abbrev pub freed : Block → Block
freed b = record b { is_free = true }

-- A block that is on no list, in view: the others are in the classes of their sizes.
pub record IsHeld (v : View) (bins : Bins) : Type 0 where
  pub below : Below v.before (used v.block)
  pub block : IsBlock v.block
  pub above : Above (used v.block) v.after
  pub binned : (k a : ℕ) → listed a (bins k) ≡ others (free_here k a) v

-- what an operation on the block in view keeps
pub record Same (v v' : View) : Type 0 where
  pub below : v'.before ≡ v.before
  pub address : v'.block.address ≡ v.block.address
  pub is_free : v'.block.is_free ≡ v.block.is_free
  pub used_same : (a s : ℕ) → others (used_here a s) v' ≡ others (used_here a s) v

pub Above-freed_end :
    (x y : Block) (rest : List Block)
    → x.address + header_size + x.size ≡ y.address + header_size + y.size
    → y.is_free ≡ true
    → Above y rest
    → Above (freed x) rest
Above-freed_end x y [] e f h = tt
Above-freed_end x y (z ∷ rest) e f h = (h.0, ground (arith, h.1), h.2)

pub Above-used : (x : Block) (rest : List Block) → Above (freed x) rest → Above (used x) rest
Above-used x [] h = tt
Above-used x (y ∷ rest) h = (h.0, ground (arith, h.1), h.2)

pub Below-moved :
    (before : List Block) (x y : Block)
    → x.address ≡ y.address
    → Below before (used x)
    → Below before (used y)
Below-moved [] x y e h = tt
Below-moved (z ∷ before) x y e h = (h.0, ground (arith, h.1, e), h.2)

-- what merging gives
abbrev pub Merged : View → View × Bins → Type 0
Merged v r =
    IsHeld r.0 r.1
    × Above (freed r.0.block) r.0.after
    × Same v r.0
    × (v.block.size ≤ r.0.block.size)

merge_after-Merged :
    (before : List Block) (b : Block) (after : List Block) (bins : Bins)
    → let v : View = record { before = before; block = b; after = after } in
      IsHeld v bins → Merged v (merge_after v after bins)
merge_after-Merged before b [] bins h = (h, tt, ground arith, omega arith)
merge_after-Merged before b (a ∷ rest) bins h = elim (Bool-cases (a.is_free && adjacent b a)) [
  | inl merges ↦ rw merges (
    record {
      below = Below-moved before b (joined b a) refl h.below;
      block = ground (arith, h.block, h.above.0, merges);
      above = Above-used (joined b a) rest (grown merges);
      binned = λ k x. ground (arith, h.binned k x, listed-bin_remove a bins k x, merges);
    },
    grown merges,
    record {
      below = refl;
      address = refl;
      is_free = refl;
      used_same = λ x s. ground (arith, merges);
    },
    omega arith,
  )
  | inr apart ↦
      rw apart
        (h, (h.above.0, ground (arith, h.above.1, apart), h.above.2), ground arith, omega arith)
]
  where
    grown : (a.is_free && adjacent b a) ≡ true → Above (freed (joined b a)) rest
    grown merges =
        Above-freed_end (joined b a) a rest (ground (arith, merges)) (ground (arith, merges))
          h.above.2

pub merge_with_next-Merged :
    (v : View) (bins : Bins) → IsHeld v bins → Merged v (merge_with_next v bins)
unfolding merge_with_next
merge_with_next-Merged v bins h = merge_after-Merged v.before v.block v.after bins h

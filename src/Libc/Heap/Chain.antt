-- ===== src/Libc/Heap/Chain.antt =====
-- user/libc/src/stdlib.c: the order of the chain, and what merging and cutting keep of it.
use shit_os.Prelude.{
  ℕ, ◌+◌, ◌%◌, ◌^◌, ◌≤◌, ◌≡◌, arith, false, ◌&&◌, List, [], ◌∷◌, some, ◌==◌, Bool-cases, inl, inr,
}
use shit_os.Libc.Heap.Blocks.{Block, View, header_size, adjacent, unwind, close, view_at, view_from}

pub record IsBlock (b : Block) : Type 0 where
  pub size_aligned : b.size % 16 ≡ 0
  pub size_pos : 16 ≤ b.size
  pub address_aligned : b.address % 16 ≡ 0
  pub in_memory : b.address + header_size + b.size ≤ 2 ^ 63

-- a block before a block: they do not overlap, and two free ones do not touch
pub record IsBefore (x y : Block) : Type 0 where
  pub below : x.address + header_size + x.size ≤ y.address
  pub apart : (x.is_free && y.is_free && adjacent x y) ≡ false

-- the blocks above a block
abbrev pub Above : Block → List Block → Type 0
Above x [] = Unit {0}
Above x (y ∷ ys) = IsBlock y × IsBefore x y × Above y ys

-- and those below it, the nearest first
abbrev pub Below : List Block → Block → Type 0
Below [] x = Unit {0}
Below (y ∷ ys) x = IsBlock y × IsBefore y x × Below ys y

abbrev pub IsChain : List Block → Type 0
IsChain [] = Unit {0}
IsChain (x ∷ xs) = IsBlock x × Above x xs

-- A view of a chain.
pub record IsView (v : View) : Type 0 where
  pub below : Below v.before v.block
  pub block : IsBlock v.block
  pub above : Above v.block v.after

unwind-IsChain :
    (before : List Block) (b : Block) (after : List Block)
    → Below before b
    → IsBlock b
    → Above b after
    → IsChain (unwind before (b ∷ after))
unfolding unwind
unwind-IsChain [] b after lo m hi = (m, hi)
unwind-IsChain (p ∷ before) b after lo m hi =
    unwind-IsChain before p (b ∷ after) lo.2 lo.0 (m, lo.1, hi)

pub close-IsChain : {v : View} → IsView v → IsChain (close v)
close-IsChain {v} i = unwind-IsChain v.before v.block v.after i.below i.block i.above

view_from-IsView :
    (a : ℕ) (before rest : List Block) (b : Block) {v : View}
    → Below before b
    → IsBlock b
    → Above b rest
    → view_from a before (b ∷ rest) ≡ some v
    → IsView v
unfolding view_from
view_from-IsView a before [] b lo m hi e = ground arith
view_from-IsView a before (c ∷ rest) b lo m hi e = elim (Bool-cases (b.address == a)) [
  | inl here ↦ ground (arith, here)
  | inr later ↦ view_from-IsView a (b ∷ before) rest c (m, hi.1, lo) hi.0 hi.2 (rw later at e)
]

pub view_at-IsView :
    (a : ℕ) (chain : List Block) {v : View} → IsChain chain → view_at a chain ≡ some v → IsView v
unfolding view_at view_from
view_at-IsView a [] i e = cc
view_at-IsView a (b ∷ rest) i e = view_from-IsView a [] rest b tt i.0 i.1 e

view_from-close :
    (a : ℕ) (before chain : List Block) {v : View}
    → view_from a before chain ≡ some v
    → (close v ≡ unwind before chain) × (v.block.address ≡ a)
unfolding view_from unwind
view_from-close a before [] e = cc
view_from-close a before (b ∷ rest) e = elim (Bool-cases (b.address == a)) [
  | inl here ↦ ground (arith, here)
  | inr later ↦ view_from-close a (b ∷ before) rest (rw later at e)
]

pub view_at-close :
    (a : ℕ) (chain : List Block) {v : View}
    → view_at a chain ≡ some v
    → (close v ≡ chain) × (v.block.address ≡ a)
unfolding view_at unwind
view_at-close a chain e = view_from-close a [] chain e

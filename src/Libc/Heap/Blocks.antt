-- ===== src/Libc/Heap/Blocks.antt =====
-- user/libc/src/stdlib.c: the blocks of the heap, the size classes and the operations on one block.
-- The chain in address order is a list. `block->prev` and `block->next` are its neighbours there: the
-- code that holds a pointer to a block sees the chain from that block, as a `View`. A size class is
-- the list of the addresses of its blocks. `magic`, and the stop at a corrupt header, are left out, as
-- are the bytes of the payloads.
use shit_os.Prelude.{
  ℕ, zero, suc, ◌+◌, ◌-◌, ◌*◌, ◌/◌, ◌%◌, ◌^◌, Bool, true, ◌&&◌, List, [], ◌∷◌, Option, none, some,
  ltb, leb, ◌==◌, if◌then◌else◌,
}

-- `struct Block`
pub record Block : Type 0 where
  pub address : ℕ
  pub size : ℕ
  pub is_free : Bool

pub record View : Type 0 where
  -- the blocks below, the nearest first
  pub before : List Block
  pub block : Block
  -- the blocks above
  pub after : List Block

-- `s_bins`
abbrev pub Bins : Type 0
Bins = ℕ → List ℕ

-- `s_heap`, with `s_heap_tail` as its last block
pub record Heap : Type 0 where
  pub chain : List Block
  pub bins : Bins

-- a `size_t`
abbrev pub word : ℕ → ℕ
word n = n % 2 ^ 64

abbrev pub header_size : ℕ
header_size = 32

unfoldable pub align_up : ℕ → ℕ
align_up value = word (value + 15) / 16 * 16

-- `while (index + 1 < BIN_COUNT && payload >= bound * 2)`, on as many rounds as there are classes
unfoldable pub bin_from : ℕ → ℕ → ℕ → ℕ → ℕ
bin_from zero payload index bound = index
bin_from (suc rounds) payload index bound =
    let more = bin_from rounds payload (index + 1) (bound * 2) in
    if leb (bound * 2) payload then more else index

unfoldable pub bin_index : ℕ → ℕ
bin_index payload = bin_from 15 payload 0 16

unfoldable pub bin_insert : Block → Bins → Bins
bin_insert b bins k = if k == bin_index b.size then b.address ∷ bins k else bins k

-- a list without an entry
unfoldable pub unlink : ℕ → List ℕ → List ℕ
unlink a [] = []
unlink a (x ∷ xs) = let more = unlink a xs in if x == a then xs else x ∷ more

unfoldable pub bin_remove : Block → Bins → Bins
unfolding unlink
bin_remove b bins k = if k == bin_index b.size then unlink b.address (bins k) else bins k

abbrev pub adjacent : Block → Block → Bool
adjacent first second = first.address + header_size + first.size == second.address

abbrev pub joined : Block → Block → Block
joined first second = record first { size = first.size + header_size + second.size }

abbrev pub merge_after : View → List Block → Bins → View × Bins
merge_after v [] bins = (v, bins)
merge_after v (a ∷ rest) bins =
    if a.is_free && adjacent v.block a
    then (record v { block = joined v.block a; after = rest }, bin_remove a bins)
    else (v, bins)

unfoldable pub merge_with_next : View → Bins → View × Bins
unfolding bin_remove
merge_with_next v bins = merge_after v v.after bins

-- what is left of a block after `wanted` bytes
abbrev pub remainder : Block → ℕ → Block
remainder b wanted = record {
  address = b.address + header_size + wanted;
  size = b.size - wanted - header_size;
  is_free = true;
}

-- the cut: the remainder is merged with what follows it and put on the lists
unfoldable pub cut : ℕ → View → Bins → View × Bins
unfolding merge_with_next bin_insert
cut wanted v bins =
    let first = record v.block { size = wanted } in
    let (rest, bins1) =
      merge_with_next
        (record { before = first ∷ v.before; block = remainder v.block wanted; after = v.after })
        bins in
    (
      record { before = v.before; block = first; after = rest.block ∷ rest.after },
      bin_insert rest.block bins1,
    )

unfoldable pub split : ℕ → View → Bins → View × Bins
unfolding cut
split wanted v bins =
    if ltb v.block.size (word (wanted + header_size + 16)) then (v, bins) else cut wanted v bins

-- The chain again, from the block in view.
unfoldable pub unwind : List Block → List Block → List Block
unwind [] chain = chain
unwind (b ∷ before) chain = unwind before (b ∷ chain)

abbrev pub close : View → List Block
close v = unwind v.before (v.block ∷ v.after)

-- the chain seen from the block at an address
unfoldable pub view_from : ℕ → List Block → List Block → Option View
view_from a before [] = none
view_from a before (b ∷ rest) =
    let more = view_from a (b ∷ before) rest in
    if b.address == a then some (record { before = before; block = b; after = rest }) else more

unfoldable pub view_at : ℕ → List Block → Option View
unfolding view_from
view_at a chain = view_from a [] chain

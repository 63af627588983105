-- ===== src/Libc/Heap/Alloc.antt =====
-- user/libc/src/stdlib.c: `malloc`, `free`, `calloc` and `realloc`. `sbrk` is the kernel's: its answer,
-- an address or none, is a parameter of what may call it, once. A pointer is a number, and 0 the null
-- pointer. `none` as the state after `free` is the stop at a corrupt heap.
use shit_os.Prelude.{
  ℕ, zero, suc, ◌+◌, ◌-◌, ◌*◌, ◌/◌, ◌^◌, true, false, not, ◌&&◌, List, [], ◌∷◌, Option, none, some,
  ltb, leb, ◌==◌, if◌then◌else◌,
}
use shit_os.Libc.Heap.Blocks.{
  Block, View, Bins, Heap, word, header_size, align_up, bin_index, bin_insert, bin_remove, adjacent,
  joined, merge_with_next, split, unwind, close, view_at,
}

-- `total` of `extend_heap`, with MIN_GROWTH
unfoldable pub growth : ℕ → ℕ
unfolding align_up
growth payload =
    let total = word (header_size + payload) in
    align_up (if ltb total (128 * 1024) then 128 * 1024 else total)

-- the new block at the end of the chain, or the last block grown by it
abbrev pub appended : Block → List Block → Bins → View × Bins
appended b [] bins = (record { before = []; block = b; after = [] }, bins)
appended b (last ∷ before) bins =
    if last.is_free && adjacent last b
    then (record { before = before; block = joined last b; after = [] }, bin_remove last bins)
    else (record { before = last ∷ before; block = b; after = [] }, bins)

unfoldable pub extend_heap : Option ℕ → ℕ → Heap → Option (View × Bins)
unfolding growth unwind bin_remove
extend_heap none payload h = none
extend_heap (some memory) payload h = some (
    appended (record { address = memory; size = growth payload - header_size; is_free = true })
      (unwind h.chain []) h.bins)

-- a block that is large enough, or what the rest of the search finds
abbrev pub fitting : ℕ → Option View → Option View → Option View
fitting wanted none more = more
fitting wanted (some v) more = if leb wanted v.block.size then some v else more

-- the loop over one size class. An entry that is no block would be a corrupt heap.
unfoldable pub first_fit : ℕ → List Block → List ℕ → Option View
first_fit wanted chain [] = none
first_fit wanted chain (a ∷ rest) = fitting wanted (view_at a chain) (first_fit wanted chain rest)

abbrev pub or_else : Option View → Option View → Option View
or_else none more = more
or_else (some v) more = some v

-- the classes from an index on
unfoldable pub search_bins : ℕ → ℕ → ℕ → Heap → Option View
unfolding first_fit
search_bins zero index wanted h = none
search_bins (suc rounds) index wanted h =
    or_else (first_fit wanted h.chain (h.bins index)) (search_bins rounds (index + 1) wanted h)

unfoldable pub take_free_block : ℕ → Heap → Option (View × Bins)
unfolding search_bins
take_free_block wanted h = elim (search_bins (16 - bin_index wanted) (bin_index wanted) wanted h) [
  | none ↦ none
  | some v ↦ some (v, bin_remove v.block h.bins)
]

-- the end of `malloc`: the block is trimmed and handed out
unfoldable pub hand_out : ℕ → View → Bins → ℕ × Heap
hand_out wanted v bins =
    let (v1, bins1) = split wanted v bins in
    let block = record v1.block { is_free = false } in
    (
      block.address + header_size,
      record { chain = close (record v1 { block = block }); bins = bins1 },
    )

-- `malloc` from the search on
unfoldable pub allocate : Option ℕ → ℕ → Heap → ℕ × Heap
allocate sbrk wanted h = elim (take_free_block wanted h) [
  | some (v, bins) ↦ hand_out wanted v bins
  | none ↦ elim (extend_heap sbrk wanted h) [
    | some (v, bins) ↦ hand_out wanted v bins
    | none ↦ (0, h)
  ]
]

unfoldable pub malloc : Option ℕ → ℕ → Heap → ℕ × Heap
malloc sbrk size h =
    if size == 0
    then (0, h)
    else if ltb (align_up size) size
    then (0, h)
    else allocate sbrk (align_up size) h

-- the merge with the block before, and the return to the size class
abbrev pub give_back : Block → List Block → List Block → Bins → Heap
give_back b [] after bins = record { chain = b ∷ after; bins = bin_insert b bins }
give_back b (p ∷ before) after bins =
    if p.is_free && adjacent p b
    then record {
      chain = unwind before (joined p b ∷ after);
      bins = bin_insert (joined p b) (bin_remove p bins);
    }
    else record { chain = unwind (p ∷ before) (b ∷ after); bins = bin_insert b bins }

-- `free` of a block that is in use
unfoldable pub release : View → Bins → Heap
unfolding merge_with_next unwind bin_insert bin_remove
release v bins =
    let (v1, bins1) =
      merge_with_next (record v { block = record v.block { is_free = true } }) bins in
    give_back v1.block v1.before v1.after bins1

unfoldable pub free : ℕ → Heap → Option Heap
free pointer h = if pointer == 0 then some h else elim (view_at (pointer - header_size) h.chain) [
  | none ↦ none
  | some v ↦ if v.block.is_free then none else some (release v h.bins)
]

unfoldable pub calloc : Option ℕ → ℕ → ℕ → Heap → ℕ × Heap
calloc sbrk count size h =
    if not (count == 0) && ltb ((2 ^ 64 - 1) / count) size
    then (0, h)
    else malloc sbrk (word (count * size)) h

-- `realloc` of a block that is there: it stays where it is when it is large enough, or when what
-- follows it is free and makes it so
abbrev pub grown : ℕ → ℕ → View → Bins → List Block → Option (View × Bins)
grown wanted pointer v bins [] = none
grown wanted pointer v bins (a ∷ rest) =
    if a.is_free && adjacent v.block a && leb wanted (v.block.size + header_size + a.size)
    then (let (v1, bins1) = merge_with_next v bins in some (split wanted v1 bins1))
    else none

unfoldable pub in_place : ℕ → ℕ → View → Bins → Option (View × Bins)
unfolding merge_with_next split
in_place wanted pointer v bins =
    if leb wanted v.block.size
    then some (split wanted v bins)
    else grown wanted pointer v bins v.after

-- the copy to a new block, when there is one
unfoldable pub moved : Option ℕ → ℕ → ℕ → Heap → Option (ℕ × Heap)
moved sbrk pointer size h =
    let (replacement, h1) = malloc sbrk size h in
    if replacement == 0
    then some (0, h1)
    else elim (free pointer h1) [ none ↦ none | some h2 ↦ some (replacement, h2) ]

unfoldable pub realloc_block : Option ℕ → ℕ → ℕ → View → Heap → Option (ℕ × Heap)
realloc_block sbrk pointer size v h = elim (in_place (align_up size) pointer v h.bins) [
  | some (v1, bins1) ↦ some (pointer, record { chain = close v1; bins = bins1 })
  | none ↦ moved sbrk pointer size h
]

unfoldable pub realloc : Option ℕ → ℕ → ℕ → Heap → Option (ℕ × Heap)
realloc sbrk pointer size h =
    if pointer == 0
    then some (malloc sbrk size h)
    else if size == 0
    then (elim (free pointer h) [ none ↦ none | some h1 ↦ some (0, h1) ])
    else elim (view_at (pointer - header_size) h.chain) [
      | none ↦ none
      | some v ↦ realloc_block sbrk pointer size v h
    ]

-- ===== src/Libc/Heap/Tests.antt =====
-- Runs of the allocator on small inputs.
use shit_os.Prelude.{◌-◌, ◌^◌, ◌≡◌, refl, arith, false, none, some, [], ◌∷◌}
use shit_os.Libc.Heap.Blocks.{
  Block, Heap, View, align_up, bin_index, bin_from, unwind, view_at, view_from,
}
use shit_os.Libc.Heap.Chain.{IsBlock, IsBefore}
use shit_os.Libc.Heap.Alloc.{growth, malloc, free, take_free_block, search_bins, first_fit}
use shit_os.Libc.Heap.Find.{IsValid}
use shit_os.Libc.Heap.Grow.{IsGiven}
use shit_os.Libc.Heap.Freeing.{Freed, free-Freed}
use shit_os.Libc.Heap.Valid.{Allocated, malloc-Allocated}

abbrev empty : Heap
empty = record { chain = []; bins = λ k. [] }

empty-IsValid : IsValid empty
empty-IsValid = record { blocks = tt; binned = λ k a. refl }

given : IsGiven empty (align_up 100) 4096
unfolding align_up growth unwind
given = record { aligned = omega arith; above = omega arith; in_memory = omega arith }

malloc_example :
    Allocated 100 empty (malloc (some 4096) 100 empty).0 (malloc (some 4096) 100 empty).1
malloc_example = malloc-Allocated 100 4096 (omega arith) (omega arith) empty-IsValid given

-- two blocks in use
abbrev block : Block
block = record { address = 4096; size = 64; is_free = false }

abbrev next_block : Block
next_block = record { address = 4192; size = 64; is_free = false }

abbrev heap : Heap
heap = record { chain = block ∷ next_block ∷ []; bins = λ k. [] }

heap-IsValid : IsValid heap
heap-IsValid = record { blocks = (first, (second, between, tt)); binned = λ k a. refl }
  where
    first : IsBlock block
    first = record {
      size_aligned = omega arith;
      size_pos = omega arith;
      address_aligned = omega arith;
      in_memory = omega arith;
    }

    second : IsBlock next_block
    second = record {
      size_aligned = omega arith;
      size_pos = omega arith;
      address_aligned = omega arith;
      in_memory = omega arith;
    }

    between : IsBefore block next_block
    between = record { below = omega arith; apart = refl }

abbrev view : View
view = record { before = block ∷ []; block = next_block; after = [] }

viewed : view_at (4224 - 32) heap.chain ≡ some view
unfolding view_at view_from
viewed = refl

free_example : (h' : Heap) × (free 4224 heap ≡ some h') × Freed heap 4224 64 h'
free_example = free-Freed 4224 view heap-IsValid (omega arith) viewed refl

nothing_free : take_free_block (align_up (2 ^ 64 - 16)) heap ≡ none
unfolding take_free_block align_up search_bins first_fit bin_index bin_from
nothing_free = refl

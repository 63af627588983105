-- ===== src/Kernel/Memory/Tests.antt =====
-- Runs of the page allocator on small inputs.
use shit_os.Prelude.{◌+◌, ◌*◌, ◌/◌, refl, arith, ◌||◌, List, [], ◌∷◌, ◌==◌}
use shit_os.Kernel.Memory.Physical.{
  Pages, page_size, allocate_page, allocate_contiguous, free_contiguous,
}
use shit_os.Kernel.Memory.Count.{IsValid, in_use}
use shit_os.Kernel.Memory.Allocate.{Answered, allocate_page-Answered}
use shit_os.Kernel.Memory.Contiguous.{Reserved, allocate_contiguous-Reserved}
use shit_os.Kernel.Memory.Release.{
  Released, IsUndone, free_contiguous-Released, free_contiguous-allocate_contiguous,
}
use shit_os.Kernel.Memory.Initialize.{
  MemoryRegion, usable, kernel_image, highest_usable, place_bitmap, align_page, physical_initialize,
}
use shit_os.Kernel.Memory.Place.{AreAddresses}
use shit_os.Kernel.Memory.Map.{IsStarted, physical_initialize-IsStarted}

-- eight pages, of which 0 and 3 are used
abbrev pages : Pages
pages = record { used = λ i. (i == 0) || (i == 3); total = 8; used_pages = 2; search_hint = 0 }

pages-IsValid : IsValid pages
unfolding in_use
pages-IsValid = record { small = omega arith; counted = refl }

allocate_page_example : Answered pages (allocate_page pages)
allocate_page_example = allocate_page-Answered pages

allocate_contiguous_example : Reserved 3 pages (allocate_contiguous 3 pages)
allocate_contiguous_example = allocate_contiguous-Reserved 3 pages (omega arith) pages-IsValid

free_contiguous_example : Released (12288 / page_size) 1 pages (free_contiguous 12288 1 pages)
free_contiguous_example = free_contiguous-Released 12288 1 pages (omega arith) pages-IsValid

free_after_allocate_example : IsUndone 3 pages (allocate_contiguous 3 pages)
free_after_allocate_example =
    free_contiguous-allocate_contiguous 3 pages (omega arith) pages-IsValid

-- 4 MiB of memory, with the kernel in its second one
abbrev memory_map : List MemoryRegion
memory_map =
    record { base = 0; length = 4194304; kind = usable }
    ∷ record { base = 1048576; length = 1048576; kind = kernel_image }
    ∷ []

memory_map-AreAddresses : AreAddresses memory_map
unfolding AreAddresses
memory_map-AreAddresses = (omega arith, (omega arith, tt))

physical_initialize_example :
    let total = align_page (highest_usable memory_map 0) / page_size in
    let bytes = (total + 63) / 64 * 8 in
    IsStarted memory_map total bytes
      (place_bitmap memory_map bytes memory_map)
      (physical_initialize memory_map)
physical_initialize_example = physical_initialize-IsStarted memory_map memory_map-AreAddresses

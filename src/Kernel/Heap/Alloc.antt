-- ===== src/Kernel/Heap/Alloc.antt =====
-- kernel/mm/heap.cpp: kmalloc and kfree, on the page allocator. An address is a physical one, which the
-- direct map moves by HHDM_BASE; 0 is the null pointer. A free list is the list of its chunks from the
-- head on, whose links are written over the headers, as in the source. The lock is left out, since an
-- operation holds it from end to end, and so is the test that heap_initialize has run. `none` as the
-- state after kfree is a panic.
use shit_os.Prelude.{
  ℕ, zero, suc, ◌+◌, ◌-◌, ◌*◌, ◌/◌, ◌%◌, ◌^◌, Bool, true, false, Option, none, some, List, [], ◌∷◌,
  leb, ◌==◌, if◌then◌else◌,
}
use shit_os.Kernel.Memory.Physical.{
  Pages, page_size, allocate_page, allocate_contiguous, free_contiguous,
}

abbrev pub header_magic : ℕ
header_magic = 0x53484954

abbrev pub class_large : ℕ
class_large = 0xFFFF

abbrev pub class_count : ℕ
class_count = 7

-- SIZE_CLASSES
abbrev pub chunk_size : ℕ → ℕ
chunk_size zero = 32
chunk_size (suc zero) = 64
chunk_size (suc (suc zero)) = 128
chunk_size (suc (suc (suc zero))) = 256
chunk_size (suc (suc (suc (suc zero)))) = 512
chunk_size (suc (suc (suc (suc (suc zero))))) = 1024
chunk_size (suc (suc (suc (suc (suc (suc class)))))) = 2048

abbrev pub header_size : ℕ
header_size = 16

abbrev pub word : ℕ → ℕ
word x = x % 2 ^ 64

abbrev pub hhdm_base : ℕ
hhdm_base = 0xFFFF800000000000

-- AllocationHeader, less its flags
pub record Header : Type 0 where
  pub magic : ℕ
  pub size_class : ℕ
  pub payload_size : ℕ

-- the state of the heap, with the headers by their addresses
pub record Heap : Type 0 where
  pub pages : Pages
  pub free_lists : ℕ → List ℕ
  pub headers : ℕ → Header
  pub bytes_in_use : ℕ
  pub bytes_reserved : ℕ
  pub allocation_count : ℕ
  pub free_count : ℕ

abbrev pub put {ℓ} : {A : Type ℓ} → ℕ → A → (ℕ → A) → ℕ → A
put index a f i = if i == index then a else f i

unfoldable pub heap_initialize : Pages → (ℕ → Header) → Heap
heap_initialize pages headers = record {
  pages = pages;
  free_lists = λ class. [];
  headers = headers;
  bytes_in_use = 0;
  bytes_reserved = 0;
  allocation_count = 0;
  free_count = 0;
}

-- the loop of `class_for`, from a class on
unfoldable pub class_from : ℕ → ℕ → ℕ → ℕ
class_from zero class payload_size = class_large
class_from (suc classes) class payload_size =
    let more = class_from classes (class + 1) payload_size in
    if leb (word (payload_size + header_size)) (chunk_size class) then class else more

abbrev pub class_for : ℕ → ℕ
class_for payload_size = class_from class_count 0 payload_size

-- the pointer to the first chunk of a list
abbrev pub pointer_to : List ℕ → ℕ
pointer_to [] = 0
pointer_to (a ∷ chunks) = word (hhdm_base + a)

-- a link, over the header where it is stored
abbrev pub linked : ℕ → Header → Header
linked next header = record header { magic = next % 2 ^ 32; size_class = next / 2 ^ 32 % 2 ^ 16 }

abbrev pub push_chunk : ℕ → ℕ → Heap → Heap
push_chunk class a h = record h {
  free_lists = put class (a ∷ h.free_lists class) h.free_lists;
  headers = put a (linked (pointer_to (h.free_lists class)) (h.headers a)) h.headers;
}

-- the loop of `refill_class`, chunk after chunk
unfoldable pub carve : ℕ → ℕ → ℕ → Heap → Heap
carve zero a class h = h
carve (suc chunks) a class h = carve chunks (a + chunk_size class) class (push_chunk class a h)

abbrev pub carved : ℕ → Option ℕ × Pages → Heap → Bool × Heap
carved class (none, p) h = (false, record h { pages = p })
carved class (some page, p) h =
    let filled : Heap =
      carve (page_size / chunk_size class) (page * page_size) class (record h { pages = p }) in
    (true, record filled { bytes_reserved = word (h.bytes_reserved + page_size) })

abbrev pub refill_class : ℕ → Heap → Bool × Heap
refill_class class h = carved class (allocate_page h.pages) h

abbrev pub div_round_up : ℕ → ℕ → ℕ
div_round_up value divisor = word (value + divisor - 1) / divisor

-- the pages of a large allocation
abbrev pub pages_for : ℕ → ℕ
pages_for size = div_round_up (word (size + header_size)) page_size

abbrev pub handed_out : ℕ → ℕ → ℕ → Heap → Heap
handed_out a class size h = record h {
  headers =
      put a (record { magic = header_magic; size_class = class; payload_size = size }) h.headers;
  bytes_in_use = word (h.bytes_in_use + size);
  allocation_count = word (h.allocation_count + 1);
}

abbrev pub large : ℕ → Option ℕ × Pages → Heap → Option ℕ × Heap
large size (none, p) h = (none, record h { pages = p })
large size (some page, p) h =
    let reserved : Heap = record h {
      pages = p;
      bytes_reserved = word (h.bytes_reserved + pages_for size * page_size);
    } in
    (some (page * page_size + header_size), handed_out (page * page_size) class_large size reserved)

-- the head of the list goes out. After the test and the refill the list is not empty.
abbrev pub take_chunk : ℕ → ℕ → List ℕ → Heap → Option ℕ × Heap
take_chunk class size [] h = (none, h)
take_chunk class size (a ∷ chunks) h = (
  some (a + header_size),
  handed_out a class size (record h { free_lists = put class chunks h.free_lists }),
)

abbrev pub after_refill : ℕ → ℕ → Bool × Heap → Option ℕ × Heap
after_refill class size (true, h) = take_chunk class size (h.free_lists class) h
after_refill class size (false, h) = (none, h)

abbrev pub is_empty : List ℕ → Bool
is_empty [] = true
is_empty (a ∷ chunks) = false

unfoldable pub kmalloc : ℕ → Heap → Option ℕ × Heap
kmalloc size h =
    let class = class_for size in
    if size == 0
    then (none, h)
    else if class == class_large
    then large size (allocate_contiguous (pages_for size) h.pages) h
    else after_refill class size
        (if is_empty (h.free_lists class) then refill_class class h else (true, h))

abbrev pub with_pages : Heap → Option Pages → Option Heap
with_pages h none = none
with_pages h (some p) = some (record h { pages = p })

-- the header's magic is cleared, and the counts are taken
abbrev pub released : ℕ → Heap → Heap
released a h = record h {
  headers = put a (record (h.headers a) { magic = 0 }) h.headers;
  bytes_in_use = word (h.bytes_in_use + 2 ^ 64 - (h.headers a).payload_size);
  free_count = word (h.free_count + 1);
}

abbrev pub free_large : ℕ → ℕ → Heap → Option Heap
free_large a size h =
    let unreserved : Heap = record h {
      bytes_reserved = word (h.bytes_reserved + 2 ^ 64 - word (pages_for size * page_size));
    } in
    with_pages unreserved (free_contiguous a (pages_for size) h.pages)

unfoldable pub kfree : ℕ → Heap → Option Heap
kfree pointer h =
    let a = pointer - header_size in
    let header = h.headers a in
    if pointer == 0
    then some h
    else if header.magic == header_magic
    then (if header.size_class == class_large
        then free_large a header.payload_size (released a h)
        else if leb class_count header.size_class
        then none
        else some (push_chunk header.size_class a (released a h)))
    else none

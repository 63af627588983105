-- ===== src/Libc/Strings/Memory.antt =====
-- user/libc/src/string.c: memcpy, memmove and memset on one memory of bytes, a function from
-- addresses. Eight bytes go at once while there are eight: `while (n >= 8)` takes n / 8 rounds.
use shit_os.Prelude.{
  ℕ, zero, suc, ◌+◌, ◌-◌, ◌*◌, ◌/◌, ◌%◌, ◌≤◌, ◌≡◌, ◌∙◌, arith, ◌&&◌, ◌||◌, ltb, leb, ◌==◌,
  if◌then◌else◌,
}

abbrev pub Memory : Type 0
Memory = ℕ → ℕ

-- a store of one byte
unfoldable pub store : ℕ → ℕ → Memory → Memory
store address value m x = if x == address then value else m x

-- a load and a store of one `unsigned long`: all its bytes are read before any is written
unfoldable pub copy_word : ℕ → ℕ → Memory → Memory
copy_word d s m x = if leb d x && ltb x (d + 8) then m (s + (x - d)) else m x

unfoldable pub copy_words : ℕ → ℕ → ℕ → Memory → Memory
copy_words zero d s m = m
copy_words (suc k) d s m = copy_words k (d + 8) (s + 8) (copy_word d s m)

unfoldable pub copy_bytes : ℕ → ℕ → ℕ → Memory → Memory
copy_bytes zero d s m = m
copy_bytes (suc n) d s m = copy_bytes n (d + 1) (s + 1) (store d (m s) m)

unfoldable pub memcpy : ℕ → ℕ → ℕ → Memory → Memory
unfolding copy_words copy_bytes copy_word
memcpy d s n m =
    let words = n / 8 in copy_bytes (n % 8) (d + words * 8) (s + words * 8) (copy_words words d s m)

-- the loop that goes down
unfoldable pub copy_down : ℕ → ℕ → ℕ → Memory → Memory
copy_down zero d s m = m
copy_down (suc n) d s m = copy_down n d s (store (d + n) (m (s + n)) m)

unfoldable pub memmove : ℕ → ℕ → ℕ → Memory → Memory
memmove d s n m =
    if (d == s) || (n == 0) then m else if ltb d s then memcpy d s n m else copy_down n d s m

-- `(unsigned char)value`, in each byte of the pattern
unfoldable pub fill_words : ℕ → ℕ → ℕ → Memory → Memory
fill_words zero d v m = m
fill_words (suc k) d v m = fill_words k (d + 8) v (λ x. if leb d x && ltb x (d + 8) then v else m x)

unfoldable pub fill_bytes : ℕ → ℕ → ℕ → Memory → Memory
fill_bytes zero d v m = m
fill_bytes (suc n) d v m = fill_bytes n (d + 1) v (store d v m)

unfoldable pub memset : ℕ → ℕ → ℕ → Memory → Memory
unfolding fill_words fill_bytes
memset d value n m =
    let words = n / 8 in
    let v = value % 256 in fill_bytes (n % 8) (d + words * 8) v (fill_words words d v m)

-- what a copy of n bytes is to do, whatever overlaps
unfoldable pub moved : ℕ → ℕ → ℕ → Memory → Memory
moved d s n m x = if leb d x && ltb x (d + n) then m (s + (x - d)) else m x

copy_words_lem :
    (k : ℕ) {d s : ℕ} (m : Memory) (x : ℕ) → d ≤ s → copy_words k d s m x ≡ moved d s (k * 8) m x
unfolding copy_words copy_word moved
copy_words_lem zero m x h = ground arith
copy_words_lem (suc k) {d = d} {s = s} m x h =
    copy_words_lem k (copy_word d s m) x (omega arith) ∙ ground (arith, same)
  where
    same : d + 8 ≤ x → s + 8 + (x - (d + 8)) ≡ s + (x - d)
    same k = omega arith

copy_bytes_lem :
    (n : ℕ) {d s : ℕ} (m : Memory) (x : ℕ) → d ≤ s → copy_bytes n d s m x ≡ moved d s n m x
unfolding copy_bytes store moved
copy_bytes_lem zero m x h = ground arith
copy_bytes_lem (suc n) {d = d} {s = s} m x h =
    copy_bytes_lem n (store d (m s) m) x (omega arith) ∙ ground arith

copy_down_lem :
    (n : ℕ) {d s : ℕ} (m : Memory) (x : ℕ) → s ≤ d → copy_down n d s m x ≡ moved d s n m x
unfolding copy_down store moved
copy_down_lem zero m x h = ground arith
copy_down_lem (suc n) {d = d} {s = s} m x h =
    copy_down_lem n (store (d + n) (m (s + n)) m) x h ∙ ground arith

memcpy_lem : (n : ℕ) {d s : ℕ} (m : Memory) (x : ℕ) → d ≤ s → memcpy d s n m x ≡ moved d s n m x
unfolding memcpy moved
memcpy_lem n {d = d} {s = s} m x h =
    copy_bytes_lem (n % 8) (copy_words (n / 8) d s m) x (omega arith)
    ∙ ground (
      arith,
      same,
      split_count,
      copy_words_lem (n / 8) m x h,
      copy_words_lem (n / 8) m (s + n / 8 * 8 + (x - (d + n / 8 * 8))) h,
    )
  where
    split_count : n ≡ n / 8 * 8 + n % 8
    split_count = omega arith

    same : d + n / 8 * 8 ≤ x → s + n / 8 * 8 + (x - (d + n / 8 * 8)) ≡ s + (x - d)
    same k = omega arith

-- `memmove` leaves the n bytes that stood at the source at the destination and every other byte
-- alone, for any two ranges, also where they overlap.
pub memmove_lem : (d s n : ℕ) (m : Memory) (x : ℕ) → memmove d s n m x ≡ moved d s n m x
unfolding memmove moved
memmove_lem d s n m x =
    ground
      (arith, memcpy_lem n {d = d} {s = s} m x, copy_down_lem n {d = d} {s = s} m x, zero_offset)
  where
    zero_offset : d ≡ s → d ≤ x → s + (x - d) ≡ x
    zero_offset e k = omega arith

-- what a fill of n bytes is to do
unfoldable pub filled : ℕ → ℕ → ℕ → Memory → Memory
filled d v n m x = if leb d x && ltb x (d + n) then v else m x

fill_words_lem : (k d v : ℕ) (m : Memory) (x : ℕ) → fill_words k d v m x ≡ filled d v (k * 8) m x
unfolding fill_words filled
fill_words_lem zero d v m x = ground arith
fill_words_lem (suc k) d v m x =
    fill_words_lem k (d + 8) v (λ x. if leb d x && ltb x (d + 8) then v else m x) x ∙ ground arith

fill_bytes_lem : (n d v : ℕ) (m : Memory) (x : ℕ) → fill_bytes n d v m x ≡ filled d v n m x
unfolding fill_bytes store filled
fill_bytes_lem zero d v m x = ground arith
fill_bytes_lem (suc n) d v m x = fill_bytes_lem n (d + 1) v (store d v m) x ∙ ground arith

-- `memset` writes the value's low byte to each of the n bytes and leaves every other byte alone.
pub memset_lem :
    (d value n : ℕ) (m : Memory) (x : ℕ) → memset d value n m x ≡ filled d (value % 256) n m x
unfolding memset filled
memset_lem d value n m x =
    fill_bytes_lem (n % 8) (d + n / 8 * 8) (value % 256) (fill_words (n / 8) d (value % 256) m) x
    ∙ ground (arith, split_count, fill_words_lem (n / 8) d (value % 256) m x)
  where
    split_count : n ≡ n / 8 * 8 + n % 8
    split_count = omega arith

-- ===== src/Drivers/Ring.antt =====
-- The single-producer single-consumer ring that modules/ps2kbd/ps2kbd.c has twice (characters and
-- key events) and modules/ps2mouse/ps2mouse.c once: an array, two indices, and a count of what was
-- dropped. One slot stays free, so that `head == tail` means empty.
pub mod Fifo
pub mod Refine
pub mod Race
pub mod Drain
use shit_os.Prelude.{
  ℕ, zero, suc, ◌+◌, ◌%◌, ◌^◌, Bool, not, ◌&&◌, List, [], ◌∷◌, ◌==◌, leb, if◌then◌else◌, set,
  get_or,
}

pub record Ring {ℓ} (A : Type ℓ) : Type ℓ where
  pub slots : List A
  pub head : ℕ
  pub tail : ℕ
  pub dropped : ℕ

-- `(index + 1) % CAPACITY`, with `index` an `unsigned`
unfoldable pub next : ℕ → ℕ → ℕ
next cap i = (i + 1) % 2 ^ 32 % cap

module _ {ℓ} {A : Type ℓ} where
  unfoldable pub is_empty : Ring A → Bool
  is_empty r = r.head == r.tail

  -- a full ring drops the new item and counts it in an `unsigned long`
  unfoldable pub push : ℕ → Ring A → A → Ring A
  push cap r x =
      let after = next cap r.head in
      if after == r.tail
      then record r { dropped = (r.dropped + 1) % 2 ^ 64 }
      else record r { slots = set r.slots r.head x; head = after }

  -- what the reader copies out: `pad` stands for a read out of bounds, which `Refine` rules out
  unfoldable pub front : A → Ring A → A
  front pad r = get_or r.slots r.tail pad

  -- the reader's store to `tail`
  unfoldable pub advance : ℕ → Ring A → Ring A
  advance cap r = record r { tail = next cap r.tail }

  -- The copying loop of a `read`: items of `size` bytes, while one more fits the `length` that the
  -- caller asked for and the ring holds one. The fuel counts rounds; `Drain` shows that `length`
  -- of it is enough.
  unfoldable pub drain : ℕ → A → ℕ → ℕ → ℕ → ℕ → Ring A → List A × Ring A
  drain cap pad size zero length written r = ([], r)
  drain cap pad size (suc fuel) length written r =
      let rest = drain cap pad size fuel length (written + size) (advance cap r) in
      if leb (written + size) length && not (is_empty r)
      then (front pad r ∷ rest.0, rest.1)
      else ([], r)

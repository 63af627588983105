-- ===== src/Kernel/Pipe/Writes.antt =====
-- kernel/fs/pipe.cpp: a turn of `write`.
use shit_os.Prelude.{
  ℕ, ◌+◌, ◌-◌, ◌<◌, ◌≡◌, refl, arith, Bool, true, false, List, [], ◌++◌, length, take, ◌⊎◌,
}
use shit_os.Kernel.Pipe.Buffer.{
  PipeBuffer, Turn, waits, interrupted, broken, answers, available, Writing,
}
use shit_os.Kernel.Pipe.Contents.{contents, IsValid}

-- the bytes of a write and those in the pipe, before and after
pub record Kept (w : Writing) (p : PipeBuffer) (w' : Writing) (p' : PipeBuffer) : Type 0 where
  pub valid : IsValid p'
  pub stream : contents p' ++ w'.bytes ≡ contents p ++ w.bytes
  pub accepted : contents p' ≡ contents p ++ take (length w.bytes - length w'.bytes) w.bytes
  pub counted : w'.written + length w'.bytes ≡ w.written + length w.bytes
  pub ends : p' ≡ record p { buffer = p'.buffer; head = p'.head }

-- a turn of `write`, branch by branch
abbrev pub WriteTurn : Bool → Writing → PipeBuffer → (Turn ℕ × Writing) × PipeBuffer → Type 0
WriteTurn signalled w p ((waits, w'), p') =
    Kept w p w' p'
    × (0 < length w'.bytes)
    × (available p' ≡ 0)
    × (0 < p.readers + p.pending_readers)
    × (signalled ≡ false)
WriteTurn signalled w p ((interrupted, w'), p') =
    (p' ≡ p)
    × (w' ≡ w)
    × (w.written ≡ 0)
    × (0 < length w.bytes)
    × (available p ≡ 0)
    × (signalled ≡ true)
WriteTurn signalled w p ((broken, w'), p') =
    (p' ≡ p) × (w' ≡ w) × (0 < length w.bytes) × (p.readers + p.pending_readers ≡ 0)
WriteTurn signalled w p ((answers k, w'), p') =
    Kept w p w' p'
    × (k ≡ w'.written)
    × ((length w'.bytes ≡ 0) ⊎ ((signalled ≡ true) × (available p' ≡ 0) × (0 < k)))

pub take-none : (xs : List ℕ) → take (length xs - length xs) xs ≡ []
take-none xs = let none : length xs - length xs ≡ 0 = omega arith in rw (none) refl

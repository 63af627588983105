-- ===== src/Kernel/Pipe/Poll.antt =====
-- kernel/fs/pipe.cpp: what poll is told, against what `read` and `write` do.
use shit_os.Prelude.{ℕ, ◌<◌, ◌≡◌, arith, Bool, true, false, not, List, [], ◌∷◌}
use shit_os.Kernel.Pipe.Buffer.{
  PipeBuffer, Turn, waits, answers, available, copy_in, read, write, can_read_without_blocking,
  can_write_without_blocking, is_hung_up,
}
use shit_os.Kernel.Pipe.Contents.{IsValid}

-- does a turn wait?
abbrev pub blocks : {A : Type 0} → Turn A → Bool
blocks waits = true
blocks turn = false

-- The answer for poll is exact for reads: on a length that is not 0 and without a signal, a turn of `read`
-- waits just when `can_read_without_blocking` is false.
pub can_read-read :
    (n : ℕ) (p : PipeBuffer)
    → 0 < n
    → can_read_without_blocking p ≡ not (blocks ((read false n p).0))
unfolding read
can_read-read n p h = ground arith

-- A hung up pipe answers the end of file to every read.
pub is_hung_up-read :
    (signalled : Bool) (n : ℕ) (p : PipeBuffer)
    → is_hung_up p ≡ true
    → read signalled n p ≡ (answers [], p)
unfolding read
is_hung_up-read signalled n p h = ground arith

-- A write of one byte on a valid pipe without a pending reader: its turn waits just when
-- `can_write_without_blocking` is false.
pub can_write-write :
    (byte written : ℕ) (p : PipeBuffer)
    → IsValid p
    → p.pending_readers ≡ 0
    → can_write_without_blocking p
      ≡ not (blocks ((write false record { bytes = byte ∷ []; written = written } p).0.0))
unfolding write copy_in
can_write-write byte written p v n = ground arith

-- A full pipe without a reader, but with a pending one: poll is told that a write does not block, and
-- every turn of `write` of any bytes waits, when no signal is pending.
pub can_write_is_wrong :
    (byte : ℕ) (bytes : List ℕ) (written : ℕ) (p : PipeBuffer)
    → available p ≡ 0
    → p.readers ≡ 0
    → 0 < p.pending_readers
    → (can_write_without_blocking p ≡ true)
      × (blocks ((write false record { bytes = byte ∷ bytes; written = written } p).0.0) ≡ true)
unfolding write copy_in
can_write_is_wrong byte bytes written p full none pending = (ground arith, ground arith)

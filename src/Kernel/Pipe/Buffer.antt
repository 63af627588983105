-- ===== src/Kernel/Pipe/Buffer.antt =====
-- kernel/fs/pipe.cpp: PipeBuffer. An operation is its turns, each from one test of its loop's condition to
-- the next wait or to the result, as it runs when no other thread uses the pipe meanwhile: the kernel can be
-- preempted and the pipe takes no lock, and Preempted has the copying loops statement by statement. A wait
-- changes nothing here. The wait queues are left out, and with them whether a thread that waits is woken. A
-- turn takes whether the current process has a pending signal.
use shit_os.Prelude.{
  ℕ, zero, suc, ◌+◌, ◌-◌, ◌%◌, ◌^◌, Bool, true, not, ◌&&◌, ◌||◌, List, [], ◌∷◌, length, ltb, ◌==◌,
  if◌then◌else◌,
}

abbrev pub pipe_capacity : ℕ
pipe_capacity = 4096

pub record PipeBuffer : Type 0 where
  pub buffer : ℕ → ℕ
  pub head : ℕ
  pub tail : ℕ
  pub readers : ℕ
  pub writers : ℕ
  pub pending_readers : ℕ
  pub pending_writers : ℕ
  pub reader_arrivals : ℕ
  pub writer_arrivals : ℕ

-- the `flags & O_ACCMODE` of an open
pub data Access : Type 0 where
  rdonly : Access
  wronly : Access
  rdwr : Access

abbrev pub used : PipeBuffer → ℕ
used p = (p.head + pipe_capacity - p.tail) % pipe_capacity

abbrev pub available : PipeBuffer → ℕ
available p = pipe_capacity - 1 - used p

abbrev pub opened : Access → PipeBuffer → PipeBuffer
opened rdonly p = record p { readers = p.readers + 1 }
opened wronly p = record p { writers = p.writers + 1 }
opened rdwr p = record p { readers = p.readers + 1; writers = p.writers + 1 }

-- The counts stop at 0, as does subtraction.
abbrev pub closed : Access → PipeBuffer → PipeBuffer
closed rdonly p = record p { readers = p.readers - 1 }
closed wronly p = record p { writers = p.writers - 1 }
closed rdwr p = record p { readers = p.readers - 1; writers = p.writers - 1 }

abbrev pub can_read_without_blocking : PipeBuffer → Bool
can_read_without_blocking p = ltb 0 (used p) || (p.writers == 0)

abbrev pub can_write_without_blocking : PipeBuffer → Bool
can_write_without_blocking p = ltb 0 (available p) || (p.readers == 0)

abbrev pub is_hung_up : PipeBuffer → Bool
is_hung_up p = (p.writers == 0) && (used p == 0)

-- what a turn comes to: it waits, is interrupted, finds the pipe broken (EPIPE, and SIGPIPE raised), or
-- answers
pub data Turn (A : Type 0) : Type 0 where
  waits : Turn A
  interrupted : Turn A
  broken : Turn A
  answers : A → Turn A

abbrev pub popped : PipeBuffer → PipeBuffer
popped p = record p { tail = (p.tail + 1) % pipe_capacity }

-- the copying loop of `read`, on what is left of the length
unfoldable pub copy_out : ℕ → PipeBuffer → List ℕ × PipeBuffer
copy_out zero p = ([], p)
copy_out (suc n) p =
    let rest = copy_out n (popped p) in
    if ltb 0 (used p) then (p.buffer p.tail ∷ rest.0, rest.1) else ([], p)

abbrev pub answered : {A : Type 0} → A × PipeBuffer → Turn A × PipeBuffer
answered (a, p) = (answers a, p)

unfoldable pub read : Bool → ℕ → PipeBuffer → Turn (List ℕ) × PipeBuffer
read signalled n p =
    if n == 0
    then (answers [], p)
    else if used p == 0
    then (if p.writers == 0 then answers [] else if signalled then interrupted else waits, p)
    else answered (copy_out n p)

abbrev pub stored : ℕ → ℕ → (ℕ → ℕ) → ℕ → ℕ
stored index byte buffer i = if i == index then byte else buffer i

abbrev pub pushed : ℕ → PipeBuffer → PipeBuffer
pushed byte p = record p {
  buffer = stored p.head byte p.buffer;
  head = (p.head + 1) % pipe_capacity;
}

-- the copying loop of `write`: the bytes that are left, and the pipe
unfoldable pub copy_in : List ℕ → PipeBuffer → List ℕ × PipeBuffer
copy_in [] p = ([], p)
copy_in (byte ∷ bytes) p =
    let rest = copy_in bytes (pushed byte p) in
    if ltb 0 (available p) then rest else (byte ∷ bytes, p)

-- what a turn of `write` leaves to do: the bytes not written, and how many are
pub record Writing : Type 0 where
  pub bytes : List ℕ
  pub written : ℕ

abbrev pub copied : Writing → List ℕ × PipeBuffer → Writing × PipeBuffer
copied w (left, p) =
    (record { bytes = left; written = w.written + (length w.bytes - length left) }, p)

-- One turn. A turn that copied goes round again at once: it answers when no byte is left, and otherwise
-- the buffer is full.
abbrev pub after_copy : Bool → Writing × PipeBuffer → (Turn ℕ × Writing) × PipeBuffer
after_copy signalled (w, p) = (
  (
    if length w.bytes == 0
        then answers w.written
        else if signalled
        then answers w.written
        else waits,
    w,
  ),
  p,
)

unfoldable pub write : Bool → Writing → PipeBuffer → (Turn ℕ × Writing) × PipeBuffer
write signalled w p =
    if length w.bytes == 0
    then ((answers w.written, w), p)
    else if p.readers + p.pending_readers == 0
    then ((broken, w), p)
    else if available p == 0
    then (
      (if signalled then (if w.written == 0 then interrupted else answers w.written) else waits, w),
      p,
    )
    else after_copy signalled (copied w (copy_in w.bytes p))

abbrev pub arrived : ℕ → ℕ
arrived count = (count + 1) % 2 ^ 64

-- `await_peer` up to its loop: the arrival is announced, and the answer is the snapshot. An opener of both
-- ends returns at once.
abbrev pub announce : Access → PipeBuffer → ℕ × PipeBuffer
announce rdonly p = (
  p.writer_arrivals,
  record p { pending_readers = p.pending_readers + 1; reader_arrivals = arrived p.reader_arrivals },
)
announce wronly p = (
  p.reader_arrivals,
  record p { pending_writers = p.pending_writers + 1; writer_arrivals = arrived p.writer_arrivals },
)
announce rdwr p = (0, p)

-- the test that ends the loop
abbrev pub peer_came : Access → ℕ → PipeBuffer → Bool
peer_came rdonly entry p = ltb 0 (p.writers + p.pending_writers) || not (p.writer_arrivals == entry)
peer_came wronly entry p = ltb 0 (p.readers + p.pending_readers) || not (p.reader_arrivals == entry)
peer_came rdwr entry p = true

abbrev pub withdraw : Access → PipeBuffer → PipeBuffer
withdraw rdonly p = record p { pending_readers = p.pending_readers - 1 }
withdraw wronly p = record p { pending_writers = p.pending_writers - 1 }
withdraw rdwr p = p

-- a turn of the loop, on the snapshot
unfoldable pub await_peer : Bool → Access → ℕ → PipeBuffer → Turn (Unit {0}) × PipeBuffer
await_peer signalled access entry p =
    if peer_came access entry p
    then (answers tt, withdraw access p)
    else if signalled
    then (interrupted, withdraw access p)
    else (waits, p)

-- ===== src/Kernel/Pipe/Tests.antt =====
-- Runs of pipes on small inputs.
use shit_os.Prelude.{◌<◌, ◌≡◌, refl, arith, false, not, List, [], ◌∷◌, ◌++◌}
use shit_os.Kernel.Pipe.Buffer.{
  PipeBuffer, Writing, answers, rdonly, announce, opened, await_peer, read,
  can_read_without_blocking, pushed,
}
use shit_os.Kernel.Pipe.Contents.{contents, IsValid}
use shit_os.Kernel.Pipe.Stream.{ReadTurn, read-ReadTurn}
use shit_os.Kernel.Pipe.Preempted.{
  Runner, writes, reads, scheduled, beginning, held, byte_stored, head_advanced, scheduled-InOrder,
  preempted_writer_loses,
}
use shit_os.Kernel.Pipe.Poll.{blocks, can_read-read}
use shit_os.Kernel.Pipe.Meeting.{early_end_of_file}

-- three bytes around the end of the buffer, with a reader and a writer
abbrev pipe : PipeBuffer
pipe = record {
  buffer = λ i. i;
  head = 2;
  tail = 4095;
  readers = 1;
  writers = 1;
  pending_readers = 0;
  pending_writers = 0;
  reader_arrivals = 1;
  writer_arrivals = 1;
}

pipe-IsValid : IsValid pipe
pipe-IsValid = record { head = omega arith; tail = omega arith }

abbrev writing : Writing
writing = record { bytes = 7 ∷ 8 ∷ []; written = 0 }

-- the writer is preempted before it advances its index, and the reader before it does
abbrev schedule : List Runner
schedule = writes ∷ writes ∷ reads ∷ reads ∷ writes ∷ writes ∷ reads ∷ writes ∷ []

scheduled-InOrder_example :
    let c = scheduled schedule (beginning (7 ∷ 8 ∷ []) pipe) in
    c.got ++ (held c ++ c.left) ≡ contents pipe ++ (7 ∷ 8 ∷ [])
scheduled-InOrder_example = scheduled-InOrder schedule (7 ∷ 8 ∷ []) pipe pipe-IsValid

preempted_writer_example :
    contents (head_advanced (pushed 8 (byte_stored 7 pipe))) ≡ contents pipe ++ (8 ∷ 3 ∷ [])
preempted_writer_example = preempted_writer_loses 7 8 pipe pipe-IsValid (omega arith)

read_example : ReadTurn false 2 pipe (read false 2 pipe)
read_example = read-ReadTurn false 2 pipe pipe-IsValid

can_read_example : can_read_without_blocking pipe ≡ not (blocks ((read false 2 pipe).0))
can_read_example = can_read-read 2 pipe (omega arith)

-- a named pipe that nobody has open
abbrev unopened : PipeBuffer
unopened = record pipe { head = 0; tail = 0; readers = 0; writers = 0 }

-- a writer has announced itself
abbrev awaited : PipeBuffer
awaited = record unopened { pending_writers = 1; writer_arrivals = 2 }

early_end_of_file_example :
    let entered = announce rdonly awaited in
    let met = await_peer false rdonly entered.0 entered.1 in
    let reading = opened rdonly met.1 in
    (met.0 ≡ answers tt) × (0 < reading.pending_writers) × ((read false 10 reading).0 ≡ answers [])
early_end_of_file_example = early_end_of_file false 10 awaited (omega arith) refl (omega arith)

-- ===== src/Kernel/Pipe/Preempted.antt =====
-- kernel/fs/pipe.cpp: the copying loops of `read` and `write`, one statement at a time. The kernel is preemptive
-- and a pipe takes no lock, so that another thread can run between any two of these statements.
use shit_os.Prelude.{
  ℕ, suc, ◌+◌, ◌-◌, ◌%◌, ◌≤◌, ◌<◌, ◌≡◌, ◌∙◌, refl, ap, sym, arith, true, false, List, [], ◌∷◌, ◌++◌,
  ◌==◌, ltb, if◌then◌else◌, Bool-cases, inl, inr,
}
use mathlib.Core.List.{append_assoc}
use shit_os.Kernel.Pipe.Buffer.{PipeBuffer, pipe_capacity, used, available, popped, pushed, stored}
use shit_os.Kernel.Pipe.Contents.{items, contents, IsValid, items-stored, items-more}

-- `m_buffer[m_head] = …`
abbrev pub byte_stored : ℕ → PipeBuffer → PipeBuffer
byte_stored byte p = record p { buffer = stored p.head byte p.buffer }

-- `m_head = …`
abbrev pub head_advanced : PipeBuffer → PipeBuffer
head_advanced p = record p { head = (p.head + 1) % pipe_capacity }

-- what a thread does next: test the loop's condition, move the byte, or advance its index
pub data Place : Type 0 where
  at_test : Place
  at_byte : Place
  at_index : Place

-- One writer with what it has left to write, and one reader with what it has read. Waiting, returning and calling
-- again for more is to test again.
pub record Copying : Type 0 where
  pub pipe : PipeBuffer
  pub writer : Place
  pub left : List ℕ
  pub reader : Place
  pub got : List ℕ

abbrev pub writer_moved : Place → List ℕ → Copying → Copying
writer_moved at_test [] c = c
writer_moved at_test (byte ∷ bytes) c =
    if ltb 0 (available c.pipe) then record c { writer = at_byte } else c
writer_moved at_byte [] c = c
writer_moved at_byte (byte ∷ bytes) c = record c {
  pipe = byte_stored byte c.pipe;
  left = bytes;
  writer = at_index;
}
writer_moved at_index bytes c = record c { pipe = head_advanced c.pipe; writer = at_test }

abbrev pub reader_moved : Place → Copying → Copying
reader_moved at_test c = if ltb 0 (used c.pipe) then record c { reader = at_byte } else c
reader_moved at_byte c = record c {
  got = c.got ++ (c.pipe.buffer c.pipe.tail ∷ []);
  reader = at_index;
}
reader_moved at_index c = record c { pipe = popped c.pipe; reader = at_test }

-- who runs for the next statement
pub data Runner : Type 0 where
  writes : Runner
  reads : Runner

abbrev pub statement : Runner → Copying → Copying
statement writes c = writer_moved c.writer c.left c
statement reads c = reader_moved c.reader c

unfoldable pub scheduled : List Runner → Copying → Copying
scheduled [] c = c
scheduled (r ∷ schedule) c = scheduled schedule (statement r c)

abbrev pub in_flight : Place → ℕ
in_flight at_index = 1
in_flight place = 0

-- the bytes in the buffer that are written and not read, with the one whose index is not yet advanced
abbrev pub held : Copying → List ℕ
held c =
    items c.pipe.buffer ((c.pipe.tail + in_flight c.reader) % pipe_capacity)
      (used c.pipe + in_flight c.writer - in_flight c.reader)

-- a thread past its test still finds what it tested
abbrev pub Finds : Place → ℕ → Type 0
Finds at_test n = Unit {0}
Finds place n = 0 < n

pub record Kept (stream : List ℕ) (c : Copying) : Type 0 where
  pub valid : IsValid c.pipe
  pub room : Finds c.writer (available c.pipe)
  pub some_byte : Finds c.reader (used c.pipe)
  pub in_order : c.got ++ (held c ++ c.left) ≡ stream

Finds-more : (place : Place) (n m : ℕ) → n ≤ m → Finds place n → Finds place m
Finds-more at_test n m le f = tt
Finds-more at_byte n m le f = omega (arith, le, f)
Finds-more at_index n m le f = omega (arith, le, f)

in_flight-used :
    (place : Place) (n : ℕ) → Finds place n → (in_flight place ≤ 1) × (in_flight place ≤ n)
in_flight-used at_test n f = (omega arith, omega arith)
in_flight-used at_byte n f = (omega arith, omega arith)
in_flight-used at_index n f = (omega arith, omega (arith, f))

-- a byte stored behind those that are held is held behind them
items-one_more :
    (n tail head byte : ℕ) (buffer : ℕ → ℕ)
    → tail < pipe_capacity
    → n < pipe_capacity
    → head ≡ (tail + n) % pipe_capacity
    → items (stored head byte buffer) tail (suc n) ≡ items buffer tail n ++ (byte ∷ [])
items-one_more n tail head byte buffer h few place =
    let here : stored head byte buffer head ≡ byte = ground arith in
    items-more n tail head byte (stored head byte buffer) h place here
    ∙ ap (λ xs. xs ++ (byte ∷ []))
        (items-stored n n tail head byte buffer h (omega arith) few place)

module _ (stream : List ℕ) where
  writer_moved-Kept :
      (place : Place) (bytes : List ℕ) (p : PipeBuffer) (reader : Place) (got : List ℕ)
      → let c : Copying = record {
        pipe = p;
        writer = place;
        left = bytes;
        reader = reader;
        got = got;
      } in
        Kept stream c → Kept stream (writer_moved place bytes c)
  writer_moved-Kept at_test [] p reader got k = k
  writer_moved-Kept at_test (byte ∷ bytes) p reader got k =
      elim (Bool-cases (ltb 0 (available p))) [
        | inl e ↦ rw (e) record {
          valid = k.valid;
          room = ground (arith, e);
          some_byte = k.some_byte;
          in_order = k.in_order;
        }
        | inr e ↦ rw (e) k
      ]
  writer_moved-Kept at_byte [] p reader got k = k
  writer_moved-Kept at_byte (byte ∷ bytes) p reader got k =
      let r = in_flight reader in
      let few = in_flight-used reader (used p) k.some_byte in
      let count : used p + 1 - r ≡ suc (used p - r) = omega (arith, few.1) in
      let more =
        items-one_more (used p - r) ((p.tail + r) % pipe_capacity) p.head byte p.buffer
          (omega arith) (omega arith) (ground (arith, k.valid.head, k.valid.tail, few.0, few.1)) in
      let same : used p + 0 - r ≡ used p - r = omega arith in
      let before : List ℕ = items p.buffer ((p.tail + r) % pipe_capacity) (used p - r) in
      record {
        valid = record { head = k.valid.head; tail = k.valid.tail };
        room = k.room;
        some_byte = k.some_byte;
        in_order =
            ap (λ xs. got ++ (xs ++ bytes))
              (ap (items (stored p.head byte p.buffer) ((p.tail + r) % pipe_capacity)) count ∙ more)
            ∙ ap (λ xs. got ++ xs) (append_assoc before (byte ∷ []) bytes)
            ∙ ap
                (λ (n : ℕ).
                  got ++ (items p.buffer ((p.tail + r) % pipe_capacity) n ++ (byte ∷ bytes)))
                (sym same)
            ∙ k.in_order;
      }
  writer_moved-Kept at_index bytes p reader got k =
      let r = in_flight reader in
      let grown : used (head_advanced p) ≡ used p + 1 =
        ground (arith, k.room, k.valid.head, k.valid.tail) in
      record {
        valid = record { head = omega arith; tail = k.valid.tail };
        room = tt;
        some_byte =
            Finds-more reader (used p) (used (head_advanced p)) (omega (arith, grown)) k.some_byte;
        in_order =
            ap (λ (n : ℕ). got ++ (items p.buffer ((p.tail + r) % pipe_capacity) n ++ bytes))
              (omega (arith, grown))
            ∙ k.in_order;
      }

  reader_moved-Kept :
      (place writer : Place) (p : PipeBuffer) (left got : List ℕ)
      → let c : Copying = record {
        pipe = p;
        writer = writer;
        left = left;
        reader = place;
        got = got;
      } in
        Kept stream c → Kept stream (reader_moved place c)
  unfolding items
  reader_moved-Kept at_test writer p left got k = elim (Bool-cases (ltb 0 (used p))) [
    | inl e ↦ rw (e) record {
      valid = k.valid;
      room = k.room;
      some_byte = ground (arith, e);
      in_order = k.in_order;
    }
    | inr e ↦ rw (e) k
  ]
  reader_moved-Kept at_byte writer p left got k =
      let w = in_flight writer in
      let count : used p + w - 0 ≡ suc (used p + w - 1) = omega (arith, k.some_byte) in
      let start : (p.tail + 0) % pipe_capacity ≡ p.tail = omega (arith, k.valid.tail) in
      let rest : List ℕ = items p.buffer ((p.tail + 1) % pipe_capacity) (used p + w - 1) in
      let whole : items p.buffer ((p.tail + 0) % pipe_capacity) (used p + w - 0)
          ≡ p.buffer p.tail ∷ rest =
        ap (λ (t : ℕ). items p.buffer t (used p + w - 0)) start
        ∙ ap (items p.buffer p.tail) count in
      record {
        valid = k.valid;
        room = k.room;
        some_byte = k.some_byte;
        in_order =
            append_assoc got (p.buffer p.tail ∷ []) (rest ++ left)
            ∙ ap (λ xs. got ++ (xs ++ left)) (sym whole)
            ∙ k.in_order;
      }
  reader_moved-Kept at_index writer p left got k =
      let w = in_flight writer in
      let fewer : used (popped p) + 1 ≡ used p =
        ground (arith, k.some_byte, k.valid.head, k.valid.tail) in
      let start : ((p.tail + 1) % pipe_capacity + 0) % pipe_capacity
          ≡ (p.tail + 1) % pipe_capacity =
        omega arith in
      record {
        valid = record { head = k.valid.head; tail = omega arith };
        room = Finds-more writer (available p) (available (popped p)) (omega (arith, fewer)) k.room;
        some_byte = tt;
        in_order =
            ap (λ (t : ℕ). got ++ (items p.buffer t (used (popped p) + w - 0) ++ left)) start
            ∙ ap (λ (n : ℕ). got ++ (items p.buffer ((p.tail + 1) % pipe_capacity) n ++ left))
                (omega (arith, fewer))
            ∙ k.in_order;
      }

  statement-Kept : (r : Runner) (c : Copying) → Kept stream c → Kept stream (statement r c)
  statement-Kept writes c k = writer_moved-Kept c.writer c.left c.pipe c.reader c.got k
  statement-Kept reads c k = reader_moved-Kept c.reader c.writer c.pipe c.left c.got k

  scheduled-Kept :
      (schedule : List Runner) (c : Copying) → Kept stream c → Kept stream (scheduled schedule c)
  unfolding scheduled
  scheduled-Kept [] c k = k
  scheduled-Kept (r ∷ schedule) c k = scheduled-Kept schedule (statement r c) (statement-Kept r c k)

-- before either thread has begun
abbrev pub beginning : List ℕ → PipeBuffer → Copying
beginning bytes p = record { pipe = p; writer = at_test; left = bytes; reader = at_test; got = [] }

-- Undisturbed, three statements of a loop are a round of it as `copy_in` and `copy_out` have it.
writer_round :
    (byte : ℕ) (bytes got : List ℕ) (p : PipeBuffer) (reader : Place)
    → ltb 0 (available p) ≡ true
    → scheduled
        (writes ∷ writes ∷ writes ∷ [])
        (record { pipe = p; writer = at_test; left = byte ∷ bytes; reader = reader; got = got })
      ≡ record { pipe = pushed byte p; writer = at_test; left = bytes; reader = reader; got = got }
unfolding scheduled
writer_round byte bytes got p reader e = rw (e) refl

reader_round :
    (left got : List ℕ) (p : PipeBuffer) (writer : Place)
    → ltb 0 (used p) ≡ true
    → scheduled
        (reads ∷ reads ∷ reads ∷ [])
        (record { pipe = p; writer = writer; left = left; reader = at_test; got = got })
      ≡ record {
        pipe = popped p;
        writer = writer;
        left = left;
        reader = at_test;
        got = got ++ (p.buffer p.tail ∷ []);
      }
unfolding scheduled
reader_round left got p writer e = rw (e) refl

-- One writer and one reader, preempted between any two statements of their copying loops: on a valid pipe the bytes
-- read, then those held, then those left to write are always the bytes that the pipe held and then those
-- to write, in order, so that none is lost, doubled or reordered without a lock.
pub scheduled-InOrder :
    (schedule : List Runner) (bytes : List ℕ) (p : PipeBuffer)
    → IsValid p
    → let c = scheduled schedule (beginning bytes p) in
      c.got ++ (held c ++ c.left) ≡ contents p ++ bytes
scheduled-InOrder schedule bytes p v =
    let count : used p + 0 - 0 ≡ used p = omega arith in
    let start : (p.tail + 0) % pipe_capacity ≡ p.tail = omega (arith, v.tail) in
    (scheduled-Kept (contents p ++ bytes) schedule (beginning bytes p)
      record { valid = v; room = tt; some_byte = tt; in_order = rw (start, count) refl }).in_order

-- Two writers: on a valid pipe with room for two bytes, when one has stored its byte and is preempted before it
-- advances the index, and the other writes a byte, and then the first goes on, its byte is lost: the pipe
-- holds the other's byte and then the old contents of the next place of the buffer.
pub preempted_writer_loses :
    (byte other : ℕ) (p : PipeBuffer)
    → IsValid p
    → 2 ≤ available p
    → contents (head_advanced (pushed other (byte_stored byte p)))
      ≡ contents p ++ (other ∷ p.buffer ((p.head + 1) % pipe_capacity) ∷ [])
preempted_writer_loses byte other p v room =
    let next = (p.head + 1) % pipe_capacity in
    let q = head_advanced (pushed other (byte_stored byte p)) in
    let count : used q ≡ suc (suc (used p)) = ground (arith, room, v.head, v.tail) in
    let twice = stored p.head other (stored p.head byte p.buffer) in
    let elsewhere : (next == p.head) ≡ false = ground (arith, v.head) in
    let old : twice next ≡ p.buffer next = rw (elsewhere) refl in
    let first =
      items-one_more (used p) p.tail p.head other (stored p.head byte p.buffer) v.tail (omega arith)
        (ground (arith, v.head, v.tail)) in
    let below =
      items-stored (used p) (used p) p.tail p.head byte p.buffer v.tail (omega arith) (omega arith)
        (ground (arith, v.head, v.tail)) in
    ap (items twice p.tail) count
    ∙ items-more (suc (used p)) p.tail next (p.buffer next) twice v.tail
        (ground (arith, v.head, v.tail)) old
    ∙ ap (λ xs. xs ++ (p.buffer next ∷ [])) (first ∙ ap (λ xs. xs ++ (other ∷ [])) below)
    ∙ append_assoc (contents p) (other ∷ []) (p.buffer next ∷ [])

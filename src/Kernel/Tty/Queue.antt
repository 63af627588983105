-- ===== src/Kernel/Tty/Queue.antt =====
-- kernel/dev/line_discipline.cpp: the queue of bytes ready to be read, and the line being typed.
use shit_os.Prelude.{
  ℕ, zero, suc, ◌+◌, ◌-◌, ◌%◌, ◌<◌, ◌≡◌, ◌∙◌, refl, ap, sym, arith, List, [], ◌∷◌, ◌++◌, length,
  length-append, take, take-nil, drop, ltb, ◌==◌, Bool-cases, inl, inr,
}
use mathlib.Core.List.{append-nil, append_assoc}
use shit_os.Kernel.Pipe.Contents.{items, items-stored, items-more, length-items}
use shit_os.Kernel.Tty.Discipline.{
  LineDiscipline, line_buffer_size, ready_buffer_size, stored, push_ready, push_line, commit_line,
  copy_out,
}

abbrev pub ready_count : LineDiscipline → ℕ
ready_count d = (d.ready_head + ready_buffer_size - d.ready_tail) % ready_buffer_size

-- the bytes ready to be read, and the line
abbrev pub queue : LineDiscipline → List ℕ
queue d = items d.ready d.ready_tail (ready_count d)

abbrev pub typed : LineDiscipline → List ℕ
typed d = items d.line 0 d.line_length

pub record IsValid (d : LineDiscipline) : Type 0 where
  pub head : d.ready_head < ready_buffer_size
  pub tail : d.ready_tail < ready_buffer_size
  pub short : d.line_length < line_buffer_size

-- a queue that drops what it has no room for
abbrev pub enqueue : List ℕ → List ℕ → List ℕ
enqueue bytes held = held ++ take (ready_buffer_size - 1 - length held) bytes

abbrev with_ready : (ℕ → ℕ) → ℕ → LineDiscipline → LineDiscipline
with_ready ready head d = record d { ready = ready; ready_head = head }

abbrev pub emptied : LineDiscipline → LineDiscipline
emptied d = record d { line_length = 0 }

-- what pushing leaves: only the queue has changed
pub record Pushed (bytes : List ℕ) (d d' : LineDiscipline) : Type 0 where
  pub head : d'.ready_head < ready_buffer_size
  pub held : queue d' ≡ enqueue bytes (queue d)
  pub ends : d' ≡ record d { ready = d'.ready; ready_head = d'.ready_head }

pub push_ready-Pushed :
    (c : ℕ) (d : LineDiscipline)
    → d.ready_head < ready_buffer_size
    → d.ready_tail < ready_buffer_size
    → Pushed (c ∷ []) d (push_ready c d)
unfolding push_ready
push_ready-Pushed c d h t =
    let sized = length-items (ready_count d) d.ready_tail d.ready in
    elim (Bool-cases ((d.ready_head + 1) % ready_buffer_size == d.ready_tail)) [
      | inl e ↦
          let full : ready_buffer_size - 1 - length (queue d) ≡ 0 = ground (arith, sized) in
          rw (e) record { head = h; held = rw (full) (sym (append-nil (queue d))); ends = refl }
      | inr e ↦
          let count = ready_count d in
          let room : ready_buffer_size - 1 - length (queue d)
              ≡ suc (ready_buffer_size - 2 - count) =
            ground (arith, sized) in
          let place : d.ready_head ≡ (d.ready_tail + count) % ready_buffer_size = ground arith in
          let grown : ((d.ready_head + 1) % ready_buffer_size + ready_buffer_size - d.ready_tail)
                % ready_buffer_size
              ≡ suc count =
            ground arith in
          let kept =
            items-stored count count d.ready_tail d.ready_head c d.ready t (omega arith)
              (omega arith) place in
          let more =
            items-more count d.ready_tail d.ready_head c (stored d.ready_head c d.ready) t place
              (ground arith) in
          rw (e) record {
            head = omega arith;
            held =
                rw (grown, room, take-nil {A = ℕ} (ready_buffer_size - 2 - count))
                  (more ∙ rw (kept) refl);
            ends = refl;
          }
    ]

enqueue-cons :
    (c : ℕ) (bytes held : List ℕ) → enqueue bytes (enqueue (c ∷ []) held) ≡ enqueue (c ∷ bytes) held
enqueue-cons c bytes held = elim (Bool-cases (ltb (length held) (ready_buffer_size - 1))) [
  | inl e ↦
      let room : ready_buffer_size - 1 - length held ≡ suc (ready_buffer_size - 2 - length held) =
        ground arith in
      let longer = length-append held (c ∷ []) in
      let less : ready_buffer_size - 1 - length (held ++ (c ∷ []))
          ≡ ready_buffer_size - 2 - length held =
        omega (arith, longer) in
      rw (room, take-nil {A = ℕ} (ready_buffer_size - 2 - length held), less)
        (append_assoc held (c ∷ []) (take (ready_buffer_size - 2 - length held) bytes))
  | inr e ↦
      let full : ready_buffer_size - 1 - length held ≡ 0 = ground arith in
      rw (full) (rw (append-nil held, full) (append-nil held))
]

pub push_line-Pushed :
    (left i : ℕ) (d : LineDiscipline)
    → i + left < ready_buffer_size
    → d.ready_head < ready_buffer_size
    → d.ready_tail < ready_buffer_size
    → Pushed (items d.line i left) d (push_line left i d)
unfolding push_line items
push_line-Pushed zero i d l h t = record {
  head = h;
  held =
      rw (take-nil {A = ℕ} (ready_buffer_size - 1 - length (queue d))) (sym (append-nil (queue d)));
  ends = refl;
}
push_line-Pushed (suc left) i d l h t =
    let one = push_ready-Pushed (d.line i) d h t in
    let d' = push_ready (d.line i) d in
    let lines : d'.line ≡ d.line = ap (λ q. q.line) one.ends in
    let tails : d'.ready_tail ≡ d.ready_tail = ap (λ q. q.ready_tail) one.ends in
    let rest = push_line-Pushed left (i + 1) d' (omega arith) one.head (omega (arith, tails)) in
    let next : (i + 1) % ready_buffer_size ≡ i + 1 = omega arith in
    let last = push_line left (i + 1) d' in
    record {
      head = rest.head;
      held =
          rest.held
          ∙ rw (next, one.held, lines)
              (enqueue-cons (d.line i) (items d.line (i + 1) left) (queue d));
      ends = rest.ends ∙ ap (with_ready last.ready last.ready_head) one.ends;
    }

pub commit_line-Pushed :
    (d : LineDiscipline)
    → d.line_length < ready_buffer_size
    → d.ready_head < ready_buffer_size
    → d.ready_tail < ready_buffer_size
    → Pushed (typed d) (emptied d) (commit_line d)
unfolding commit_line
commit_line-Pushed d l h t =
    let all = push_line-Pushed d.line_length 0 d (omega (arith, l)) h t in
    let last = push_line d.line_length 0 d in
    record { head = all.head; held = all.held; ends = ap emptied all.ends }

-- what the copying loop of `read` leaves: the oldest bytes are out, and only the tail has moved
pub record Taken (n : ℕ) (d : LineDiscipline) (bytes : List ℕ) (d' : LineDiscipline) : Type 0 where
  pub tail : d'.ready_tail < ready_buffer_size
  pub oldest : bytes ≡ take n (queue d)
  pub left : queue d' ≡ drop n (queue d)
  pub ends : d' ≡ record d { ready_tail = d'.ready_tail }

pub queue-empty : (d : LineDiscipline) → ready_count d ≡ 0 → queue d ≡ []
unfolding items
queue-empty d e = rw (e) refl

pub copy_out-Taken :
    (n : ℕ) (d : LineDiscipline)
    → d.ready_head < ready_buffer_size
    → d.ready_tail < ready_buffer_size
    → Taken n d ((copy_out n d).0) ((copy_out n d).1)
unfolding copy_out items
copy_out-Taken zero d h t = record { tail = t; oldest = refl; left = refl; ends = refl }
copy_out-Taken (suc n) d h t = elim (Bool-cases (d.ready_head == d.ready_tail)) [
  | inl e ↦
      let none = queue-empty d (ground arith) in
      rw (e) record { tail = t; oldest = rw (none) refl; left = rw (none) refl; ends = refl }
  | inr e ↦
      let d' : LineDiscipline = record d { ready_tail = (d.ready_tail + 1) % ready_buffer_size } in
      let rest = copy_out-Taken n d' h (omega arith) in
      let more : ready_count d ≡ suc (ready_count d') = ground arith in
      rw (e) record {
        tail = rest.tail;
        oldest = rw (more) (ap (λ xs. d.ready d.ready_tail ∷ xs) rest.oldest);
        left = rw (more) rest.left;
        ends = rest.ends;
      }
]

-- ===== src/Kernel/Pipe/Stream.antt =====
-- kernel/fs/pipe.cpp: reading and writing against the bytes in order.
use shit_os.Prelude.{
  ℕ, zero, suc, ◌<◌, ◌≡◌, ◌∙◌, refl, ap, sym, arith, Bool, true, false, List, [], ◌∷◌, ◌++◌, length,
  take, drop, take-nil, drop-nil, length-take, ltb, ◌==◌, Bool-cases, inl, inr, ◌⊎◌,
}
use mathlib.Core.List.{append-nil, append_assoc}
use shit_os.Kernel.Pipe.Buffer.{
  PipeBuffer, Turn, waits, interrupted, broken, answers, used, available, copy_out, copy_in, popped,
  pushed, answered, read,
}
use shit_os.Kernel.Pipe.Contents.{
  contents, IsValid, contents-pushed, contents-popped, used_pushed, popped-IsValid, pushed-IsValid,
  length-items, items,
}

-- what the copying loop of `read` leaves: the first bytes are out, and only the tail has moved
pub record Took (n : ℕ) (p : PipeBuffer) (bytes : List ℕ) (p' : PipeBuffer) : Type 0 where
  pub valid : IsValid p'
  pub taken : bytes ≡ take n (contents p)
  pub left : contents p' ≡ drop n (contents p)
  pub ends : p' ≡ record p { tail = p'.tail }

-- what the copying loop of `write` leaves: as many bytes are in as there was room for
pub record Put (bytes : List ℕ) (p : PipeBuffer) (left : List ℕ) (p' : PipeBuffer) : Type 0 where
  pub valid : IsValid p'
  pub rest : left ≡ drop (available p) bytes
  pub held : contents p' ≡ contents p ++ take (available p) bytes
  pub ends : p' ≡ record p { buffer = p'.buffer; head = p'.head }

empty : (p : PipeBuffer) → ltb 0 (used p) ≡ false → contents p ≡ []
unfolding items
empty p h = let none_used : used p ≡ 0 = ground arith in rw (none_used) refl

pub copy_out-Took :
    (n : ℕ) (p : PipeBuffer) → IsValid p → Took n p ((copy_out n p).0) ((copy_out n p).1)
unfolding copy_out
copy_out-Took zero p v = record { valid = v; taken = refl; left = refl; ends = refl }
copy_out-Took (suc n) p v = elim (Bool-cases (ltb 0 (used p))) [
  | inl e ↦
      let rest = copy_out-Took n (popped p) (popped-IsValid p v) in
      let all = contents-popped p v e in
      rw (e) record {
        valid = rest.valid;
        taken = rw (all) (ap (λ xs. p.buffer p.tail ∷ xs) rest.taken);
        left = rw (all) rest.left;
        ends = rest.ends;
      }
  | inr e ↦
      let none = empty p e in
      rw (e) record { valid = v; taken = rw (none) refl; left = rw (none) refl; ends = refl }
]

pub copy_in-Put :
    (bytes : List ℕ) (p : PipeBuffer)
    → IsValid p
    → Put bytes p ((copy_in bytes p).0) ((copy_in bytes p).1)
unfolding copy_in
copy_in-Put [] p v =
    let nothing = take-nil {A = ℕ} (available p) in
    record {
      valid = v;
      rest = sym (drop-nil (available p));
      held = rw (nothing) (sym (append-nil (contents p)));
      ends = refl;
    }
copy_in-Put (byte ∷ bytes) p v = elim (Bool-cases (ltb 0 (available p))) [
  | inl e ↦
      let rest = copy_in-Put bytes (pushed byte p) (pushed-IsValid byte p v) in
      let room : available p ≡ suc (available (pushed byte p)) =
        ground (arith, used_pushed byte p v e) in
      rw (e) record {
        valid = rest.valid;
        rest = rw (room) rest.rest;
        held = rw (room) (
            rest.held
            ∙ rw (contents-pushed byte p v e)
                (append_assoc (contents p) (byte ∷ []) (take (available (pushed byte p)) bytes)));
        ends = rest.ends;
      }
  | inr e ↦
      let full : available p ≡ 0 = ground arith in
      rw (e) record {
        valid = v;
        rest = rw (full) refl;
        held = rw (full) (sym (append-nil (contents p)));
        ends = refl;
      }
]

-- a turn of `read`, branch by branch
abbrev pub ReadTurn : Bool → ℕ → PipeBuffer → Turn (List ℕ) × PipeBuffer → Type 0
ReadTurn signalled n p (waits, p') =
    (p' ≡ p) × (0 < n) × (contents p ≡ []) × (0 < p.writers) × (signalled ≡ false)
ReadTurn signalled n p (interrupted, p') =
    (p' ≡ p) × (0 < n) × (contents p ≡ []) × (0 < p.writers) × (signalled ≡ true)
ReadTurn signalled n p (broken, p') = ⊥
ReadTurn signalled n p (answers bytes, p') =
    Took n p bytes p' × ((bytes ≡ []) → (n ≡ 0) ⊎ ((contents p ≡ []) × (p.writers ≡ 0)))

answered-ReadTurn :
    (signalled : Bool) (n : ℕ) (p : PipeBuffer) (r : List ℕ × PipeBuffer)
    → 0 < n
    → 0 < used p
    → Took n p r.0 r.1
    → ReadTurn signalled n p (answered r)
answered-ReadTurn signalled n p (bytes, p') h u t =
    let sized = length-take n (contents p) in
    let held = length-items (used p) p.tail p.buffer in
    let some_bytes : 0 < length bytes = rw (t.taken) (omega (arith, sized, held)) in
    (t, λ e. absurd (omega (arith, some_bytes, ap length e)))

-- A turn of `read` on a valid pipe, which no other thread uses meanwhile, answers the oldest bytes, as many as there are up to the length, and
-- takes exactly them out; no bytes are answered only for a length of 0, or at the end of file: an empty
-- pipe without a writer. It waits, or is interrupted by a signal, only on an empty pipe with a writer.
pub read-ReadTurn :
    (signalled : Bool) (n : ℕ) (p : PipeBuffer)
    → IsValid p
    → ReadTurn signalled n p (read signalled n p)
unfolding read
read-ReadTurn signalled n p v = elim (Bool-cases (n == 0)) [
  | inl e ↦
      let none : n ≡ 0 = ground arith in
      rw (e) (
        record { valid = v; taken = rw (none) refl; left = rw (none) refl; ends = refl },
        λ x. inl none,
      )
  | inr e ↦ elim (Bool-cases (used p == 0)) [
    | inr u ↦
        rw (e, u)
          (answered-ReadTurn signalled n p (copy_out n p) (ground arith) (ground arith)
            (copy_out-Took n p v))
    | inl u ↦
        let bare = empty p (ground arith) in
        elim (Bool-cases (p.writers == 0)) [
          | inl w ↦
              rw (e, u, w)
                (
                  record {
                    valid = v;
                    taken = rw (bare) (sym (take-nil n));
                    left = rw (bare) (sym (drop-nil n));
                    ends = refl;
                  },
                  λ x. inr (bare, ground arith),
                )
          | inr w ↦ elim (Bool-cases signalled) [
            | inl s ↦ rw (e, u, w, s) (refl, ground arith, bare, ground arith, refl)
            | inr s ↦ rw (e, u, w, s) (refl, ground arith, bare, ground arith, refl)
          ]
        ]
  ]
]

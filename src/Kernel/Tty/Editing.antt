-- ===== src/Kernel/Tty/Editing.antt =====
-- kernel/dev/line_discipline.cpp: `feed` against line editing on lists.
use shit_os.Prelude.{
  ℕ, zero, suc, ◌+◌, ◌-◌, ◌%◌, ◌≤◌, ◌<◌, ◌≡◌, ◌∙◌, refl, ap, sym, arith, Bool, true, false, not,
  ◌&&◌, ◌||◌, List, [], ◌∷◌, ◌++◌, length, take, ltb, ◌==◌, if◌then◌else◌, Bool-cases, inl, inr,
}
use shit_os.Kernel.Pipe.Contents.{items, items-stored, items-more, length-items}
use shit_os.Kernel.Tty.Discipline.{
  LineDiscipline, Termios, line_buffer_size, ready_buffer_size, stored, shown, echo, echo_of,
  push_ready, commit_line, append_line, kill_line, signal_foreground_group, generated,
}
use shit_os.Kernel.Tty.Queue.{
  IsValid, Pushed, queue, typed, enqueue, emptied, push_ready-Pushed, commit_line-Pushed,
}

-- the line being typed and the bytes ready
pub record Text : Type 0 where
  pub line : List ℕ
  pub held : List ℕ

-- one character of an editor of lines
abbrev pub edit_line : Termios → ℕ → Text → Text
edit_line t c x =
    if (c == t.verase) || (c == 127)
    then record x { line = take (length x.line - 1) x.line }
    else if c == t.vkill
    then record x { line = [] }
    else if c == t.veof
    then record { line = []; held = enqueue x.line x.held }
    else if c == 10
    then record { line = []; held = enqueue (x.line ++ (10 ∷ [])) x.held }
    else if ltb (length x.line + 1) line_buffer_size
    then record x { line = x.line ++ (c ∷ []) }
    else x

abbrev pub edit_character : Termios → ℕ → Text → Text
edit_character t c x =
    if not (generated c t == 0)
    then record x { line = [] }
    else if not t.icanon
    then record x { held = enqueue (c ∷ []) x.held }
    else edit_line t c x

-- a carriage return counts as a line feed when the terminal says so
abbrev pub edit : Termios → ℕ → Text → Text
edit t c x = edit_character t (if t.icrnl && (c == 13) then 10 else c) x

pub record Shows (t : Termios) (x : Text) (d : LineDiscipline) : Type 0 where
  pub valid : IsValid d
  pub termios : d.termios ≡ t
  pub line : typed d ≡ x.line
  pub held : queue d ≡ x.held

abbrev pub text : LineDiscipline → Text
text d = record { line = typed d; held = queue d }

pub either-Shows :
    (test : Bool) (t : Termios) (x : Text) (a b : LineDiscipline)
    → Shows t x a
    → Shows t x b
    → Shows t x (if test then a else b)
either-Shows true t x a b s r = s
either-Shows false t x a b s r = r

pub echo-Shows :
    (c : ℕ) (t : Termios) (x : Text) (d : LineDiscipline) → Shows t x d → Shows t x (echo c d)
unfolding echo
echo-Shows c t x d s =
    let louder : Shows t x (shown (echo_of c) d) = record {
      valid = record { head = s.valid.head; tail = s.valid.tail; short = s.valid.short };
      termios = s.termios;
      line = s.line;
      held = s.held;
    } in
    either-Shows d.termios.echo t x (shown (echo_of c) d) d louder s

pub signal_foreground_group-Shows :
    (signal : ℕ) (t : Termios) (x : Text) (d : LineDiscipline)
    → Shows t x d
    → Shows t x (signal_foreground_group signal d)
signal_foreground_group-Shows signal t x d s =
    let d' : LineDiscipline = record d { raised = signal ∷ d.raised } in
    let after : Shows t x d' = record {
      valid = record { head = s.valid.head; tail = s.valid.tail; short = s.valid.short };
      termios = s.termios;
      line = s.line;
      held = s.held;
    } in
    either-Shows (d.foreground_group == 0) t x d d' s after

pub emptied-Shows :
    (t : Termios) (x : Text) (d : LineDiscipline)
    → Shows t x d
    → Shows t (record x { line = [] }) (emptied d)
unfolding items
emptied-Shows t x d s = record {
  valid = record { head = s.valid.head; tail = s.valid.tail; short = omega arith };
  termios = s.termios;
  line = refl;
  held = s.held;
}

Pushed-Shows :
    (bytes : List ℕ) (t : Termios) (x : Text) (d d' : LineDiscipline)
    → Shows t x d
    → Pushed bytes d d'
    → Shows t (record x { held = enqueue bytes x.held }) d'
Pushed-Shows bytes t x d d' s p =
    let tails : d'.ready_tail ≡ d.ready_tail = ap (λ q. q.ready_tail) p.ends in
    let lengths : d'.line_length ≡ d.line_length = ap (λ q. q.line_length) p.ends in
    record {
      valid = record {
        head = p.head;
        tail = omega (arith, tails, s.valid.tail);
        short = omega (arith, lengths, s.valid.short);
      };
      termios = ap (λ q. q.termios) p.ends ∙ s.termios;
      line = ap typed p.ends ∙ s.line;
      held = p.held ∙ ap (enqueue bytes) s.held;
    }

pub push_ready-Shows :
    (c : ℕ) (t : Termios) (x : Text) (d : LineDiscipline)
    → Shows t x d
    → Shows t (record x { held = enqueue (c ∷ []) x.held }) (push_ready c d)
push_ready-Shows c t x d s =
    Pushed-Shows (c ∷ []) t x d (push_ready c d) s (push_ready-Pushed c d s.valid.head s.valid.tail)

pub commit_line-Shows :
    (t : Termios) (x : Text) (d : LineDiscipline)
    → d.line_length < ready_buffer_size
    → Shows t (record x { line = [] }) (emptied d)
    → typed d ≡ x.line
    → Shows t record { line = []; held = enqueue x.line x.held } (commit_line d)
commit_line-Shows t x d l s e =
    let p = commit_line-Pushed d l s.valid.head s.valid.tail in
    rw⁻¹ (e) (Pushed-Shows (typed d) t (record x { line = [] }) (emptied d) (commit_line d) s p)

pub typed-append_line :
    (c : ℕ) (d : LineDiscipline)
    → d.line_length < line_buffer_size
    → typed (append_line c d) ≡ typed d ++ (c ∷ [])
typed-append_line c d l =
    let n = d.line_length in
    let place : n ≡ (0 + n) % ready_buffer_size = omega arith in
    let kept = items-stored n n 0 n c d.line (omega arith) (omega arith) (omega arith) place in
    let more = items-more n 0 n c (stored n c d.line) (omega arith) place (ground arith) in
    let next : n + 1 ≡ suc n = omega arith in rw (next) (more ∙ rw (kept) refl)

pub append_line-Shows :
    (c : ℕ) (t : Termios) (x : Text) (d : LineDiscipline)
    → d.line_length + 1 < line_buffer_size
    → Shows t x d
    → Shows t (record x { line = x.line ++ (c ∷ []) }) (append_line c d)
append_line-Shows c t x d l s = record {
  valid = record { head = s.valid.head; tail = s.valid.tail; short = l };
  termios = s.termios;
  line = typed-append_line c d (omega arith) ∙ ap (λ xs. xs ++ (c ∷ [])) s.line;
  held = s.held;
}

items-take :
    (k n tail : ℕ) (buffer : ℕ → ℕ) → k ≤ n → take k (items buffer tail n) ≡ items buffer tail k
unfolding items
items-take zero n tail buffer h = refl
items-take (suc k) zero tail buffer h = absurd (omega arith)
items-take (suc k) (suc n) tail buffer h =
    ap (λ xs. buffer tail ∷ xs)
      (items-take k n ((tail + 1) % ready_buffer_size) buffer (omega arith))

abbrev pub erased : LineDiscipline → LineDiscipline
erased d = record d { line_length = d.line_length - 1 }

pub erased-Shows :
    (t : Termios) (x : Text) (d : LineDiscipline)
    → Shows t x d
    → Shows t (record x { line = take (length x.line - 1) x.line }) (erased d)
erased-Shows t x d s =
    let sized : length x.line ≡ d.line_length =
      sym (ap length s.line) ∙ length-items d.line_length 0 d.line in
    record {
      valid = record {
        head = s.valid.head;
        tail = s.valid.tail;
        short = omega (arith, s.valid.short);
      };
      termios = s.termios;
      line =
          rw (sized, sym s.line)
            (sym (items-take (d.line_length - 1) d.line_length 0 d.line (omega arith)));
      held = s.held;
    }

echo-line_length : (c : ℕ) (d : LineDiscipline) → (echo c d).line_length ≡ d.line_length
unfolding echo
echo-line_length c d = elim (Bool-cases d.termios.echo) [
  | inl e ↦ rw (e) refl
  | inr e ↦ rw (e) refl
]

pub kill_line-Shows :
    (left : ℕ) (t : Termios) (x : Text) (d : LineDiscipline)
    → d.line_length ≡ left
    → Shows t x d
    → Shows t (record x { line = [] }) (kill_line left d)
unfolding kill_line items
kill_line-Shows zero t x d e s = record {
  valid = s.valid;
  termios = s.termios;
  line = rw (e) refl;
  held = s.held;
}
kill_line-Shows (suc left) t x d e s =
    let d' = erased d in
    let shorter : (echo 8 d').line_length ≡ left = echo-line_length 8 d' ∙ omega (arith, e) in
    kill_line-Shows left t (record x { line = take (length x.line - 1) x.line }) (echo 8 d') shorter
      (echo-Shows 8 t (record x { line = take (length x.line - 1) x.line }) d'
        (erased-Shows t x d s))

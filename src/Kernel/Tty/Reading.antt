-- ===== src/Kernel/Tty/Reading.antt =====
-- kernel/dev/line_discipline.cpp: `read` and `has_input`, and the echo of bytes that are not ASCII.
use shit_os.Prelude.{
  ℕ, ◌+◌, ◌%◌, ◌≤◌, ◌<◌, ◌≡◌, refl, ap, sym, arith, Bool, true, false, not, ◌&&◌, Option, none,
  some, List, [], ◌∷◌, ◌++◌, take, take-nil, drop, drop-nil, ◌==◌, Bool-cases, inl, inr, ◌⊎◌,
}
use shit_os.Kernel.Tty.Discipline.{
  LineDiscipline, Turn, waits, stopped, interrupted, answers, echo, echo_of, has_input, copy_out,
  read_ready, adopt, adopted, is_background, read,
}
use shit_os.Kernel.Tty.Queue.{IsValid, queue, queue-empty, Taken, copy_out-Taken}

adopt-IsValid :
    (reader : Option ℕ) (group_exists : ℕ → Bool) (d : LineDiscipline)
    → IsValid d
    → IsValid (adopt reader group_exists d)
unfolding adopt
adopt-IsValid reader group_exists d v = record { head = v.head; tail = v.tail; short = v.short }

adopted_lem : (reader : Option ℕ) (group : ℕ) → adopted reader false group ≡ group
adopted_lem none group = refl
adopted_lem (some pgid) group = refl

-- A terminal that does not adopt its readers, and whose group still exists or is none, keeps its group
-- whoever reads it.
pub adopt_lem :
    (reader : Option ℕ) (group_exists : ℕ → Bool) (d : LineDiscipline)
    → d.adopts_readers ≡ false
    → (d.foreground_group ≡ 0) ⊎ (group_exists d.foreground_group ≡ true)
    → (adopt reader group_exists d).foreground_group ≡ d.foreground_group
unfolding adopt
adopt_lem reader group_exists d a g =
    let stays : (not (d.foreground_group == 0) && not (group_exists d.foreground_group)) ≡ false =
      elim g [ inl e ↦ ground (arith, e) | inr e ↦ rw (e) (ground arith) ] in
    let kept : adopted reader false d.foreground_group ≡ d.foreground_group =
      adopted_lem reader d.foreground_group in
    simp (stays, a, kept) refl

abbrev pub blocks : Turn → Bool
blocks waits = true
blocks turn = false

-- The answer for poll is exact: before and after a wait, a turn of `read` waits just when `has_input` is
-- false.
pub has_input-read_ready :
    (n : ℕ) (d : LineDiscipline) → has_input d ≡ not (blocks ((read_ready n d).0))
unfolding read_ready
has_input-read_ready n d = ground arith

-- what a turn of `read` comes to, once the terminal's group is settled
abbrev pub ReadOutcome : Option ℕ → ℕ → LineDiscipline → Turn × LineDiscipline → Type 0
ReadOutcome reader n d (waits, d') =
    (d' ≡ d)
    × (0 < n)
    × (is_background reader d.foreground_group ≡ false)
    × (queue d ≡ [])
    × (has_input d ≡ false)
ReadOutcome reader n d (stopped, d') =
    (d' ≡ d) × (0 < n) × (is_background reader d.foreground_group ≡ true)
ReadOutcome reader n d (interrupted, d') = ⊥
ReadOutcome reader n d (answers bytes, d') =
    (is_background reader d.foreground_group ≡ false)
    × (bytes ≡ take n (queue d))
    × (queue d' ≡ drop n (queue d))
    × (d'.foreground_group ≡ d.foreground_group)
    × (has_input d ≡ true)

copied-ReadOutcome :
    (reader : Option ℕ) (n : ℕ) (d : LineDiscipline) (out : List ℕ × LineDiscipline)
    → is_background reader d.foreground_group ≡ false
    → has_input d ≡ true
    → Taken n d out.0 out.1
    → ReadOutcome reader n d (answers out.0, out.1)
copied-ReadOutcome reader n d out b i t =
    (b, t.oldest, t.left, ap (λ q. q.foreground_group) t.ends, i)

read_ready-ReadOutcome :
    (reader : Option ℕ) (n : ℕ) (d : LineDiscipline)
    → 0 < n
    → is_background reader d.foreground_group ≡ false
    → IsValid d
    → ReadOutcome reader n d (read_ready n d)
unfolding read_ready
read_ready-ReadOutcome reader n d h b v = elim (Bool-cases (d.ready_head == d.ready_tail)) [
  | inr e ↦
      let out =
        copied-ReadOutcome reader n d (copy_out n d) b (ground arith)
          (copy_out-Taken n d v.head v.tail) in
      simp (e) (out.0, out.1, out.2, out.3, refl)
  | inl e ↦
      let bare = queue-empty d (ground arith) in
      let none : [] ≡ take n (queue d) = rw (bare) (sym (take-nil n)) in
      let left : queue d ≡ drop n (queue d) = rw (bare) (sym (drop-nil n)) in
      elim (Bool-cases d.saw_eof) [
        | inl s ↦ simp (e, s) (b, none, left, refl, ground arith)
        | inr s ↦ elim (Bool-cases d.hung_up) [
          | inl u ↦ simp (e, s, u) (b, none, left, refl, ground arith)
          | inr u ↦ simp (e, s, u) (refl, h, b, bare, ground arith)
        ]
      ]
]

-- A turn of `read` of a length that is not 0, on a valid terminal that nothing else uses meanwhile and whose
-- group is settled first: a reader in
-- the background is stopped and nothing is read; another reader is answered the oldest bytes, up to the
-- length, and exactly they are gone, and waits just when there is no input.
pub read-ReadOutcome :
    (reader : Option ℕ) (group_exists : ℕ → Bool) (n : ℕ) (d : LineDiscipline)
    → 0 < n
    → IsValid d
    → ReadOutcome reader n (adopt reader group_exists d) (read reader group_exists n d)
unfolding read
read-ReadOutcome reader group_exists n d h v =
    let owned = adopt reader group_exists d in
    let some_length : (n == 0) ≡ false = ground arith in
    elim (Bool-cases (is_background reader owned.foreground_group)) [
      | inl b ↦ simp (some_length, b) (refl, h, refl)
      | inr b ↦
          simp (some_length, b)
            (read_ready-ReadOutcome reader n owned h b (adopt-IsValid reader group_exists d v))
    ]

-- The byte of a character that is not ASCII, 128 to 255, is echoed as a control character: a caret, and
-- the byte less 192, wrapping around.
pub echo_is_signed :
    (c : ℕ) (d : LineDiscipline)
    → 128 ≤ c
    → c < 256
    → d.termios.echo ≡ true
    → (echo c d).echoed ≡ (c + 64) % 256 ∷ 94 ∷ d.echoed
unfolding echo
echo_is_signed c d l h e =
    let bytes : echo_of c ≡ (c + 64) % 256 ∷ 94 ∷ [] = ground arith in
    simp (e) (ap (λ xs. xs ++ d.echoed) bytes)

-- ===== src/Kernel/Tty/Feed.antt =====
-- kernel/dev/line_discipline.cpp: `feed`, all of it, edits the line.
use shit_os.Prelude.{
  ℕ, ◌+◌, ◌-◌, ◌≡◌, ◌∙◌, refl, ap, arith, true, ◌&&◌, ◌||◌, [], ◌∷◌, ◌++◌, length, take, ltb, ◌==◌,
  if◌then◌else◌, Bool-cases, inl, inr,
}
use shit_os.Kernel.Pipe.Contents.{items, length-items}
use shit_os.Kernel.Tty.Discipline.{
  LineDiscipline, Termios, line_buffer_size, echo, push_ready, commit_line, append_line, generated,
  feed_canonical, feed_character, feed,
}
use shit_os.Kernel.Tty.Queue.{IsValid, queue, typed, enqueue, emptied}
use shit_os.Kernel.Tty.Editing.{
  Text, text, edit_line, edit_character, edit, Shows, echo-Shows, signal_foreground_group-Shows,
  emptied-Shows, push_ready-Shows, commit_line-Shows, append_line-Shows, typed-append_line, erased,
  erased-Shows, kill_line-Shows,
}

text-Shows : (d : LineDiscipline) → IsValid d → Shows d.termios (text d) d
text-Shows d v = record { valid = v; termios = refl; line = refl; held = refl }

erase-Shows :
    (d : LineDiscipline)
    → IsValid d
    → Shows d.termios
        (record (text d) { line = take (length (typed d) - 1) (typed d) })
        (if ltb 0 d.line_length then echo 8 (erased d) else d)
unfolding items
erase-Shows d v = elim (Bool-cases (ltb 0 d.line_length)) [
  | inl e ↦
      let x : Text = record (text d) { line = take (length (typed d) - 1) (typed d) } in
      rw (e)
        (echo-Shows 8 d.termios x (erased d) (erased-Shows d.termios (text d) d (text-Shows d v)))
  | inr e ↦
      let none : d.line_length ≡ 0 = ground arith in
      rw (e) record { valid = v; termios = refl; line = rw (none) refl; held = refl }
]

end-Shows :
    (d : LineDiscipline)
    → IsValid d
    → Shows d.termios
        record { line = []; held = enqueue (typed d) (queue d) }
        (commit_line (if d.line_length == 0 then record d { saw_eof = true } else d))
end-Shows d v =
    let d' : LineDiscipline = record d { saw_eof = true } in
    let v' : IsValid d' = record { head = v.head; tail = v.tail; short = v.short } in
    elim (Bool-cases (d.line_length == 0)) [
      | inl e ↦ rw (e) (
          commit_line-Shows d.termios (text d) d' (omega (arith, v.short))
            (emptied-Shows d.termios (text d) d' (text-Shows d' v')) refl)
      | inr e ↦ rw (e) (
          commit_line-Shows d.termios (text d) d (omega (arith, v.short))
            (emptied-Shows d.termios (text d) d (text-Shows d v)) refl)
    ]

line_feed-Shows :
    (t : Termios) (x : Text) (d : LineDiscipline)
    → Shows t x d
    → Shows t
        record { line = []; held = enqueue (x.line ++ (10 ∷ [])) x.held }
        (commit_line (if ltb d.line_length line_buffer_size then append_line 10 d else d))
unfolding items
line_feed-Shows t x d s =
    let room : ltb d.line_length line_buffer_size ≡ true = ground (arith, s.valid.short) in
    let bare : Shows t (record x { line = [] }) (emptied (append_line 10 d)) = record {
      valid = record { head = s.valid.head; tail = s.valid.tail; short = omega arith };
      termios = s.termios;
      line = refl;
      held = s.held;
    } in
    rw (room) (
      commit_line-Shows t (record x { line = x.line ++ (10 ∷ []) }) (append_line 10 d)
        (omega (arith, s.valid.short)) bare
        (typed-append_line 10 d s.valid.short ∙ ap (λ xs. xs ++ (10 ∷ [])) s.line))

feed_canonical-Shows :
    (c : ℕ) (d : LineDiscipline)
    → IsValid d
    → Shows d.termios (edit_line d.termios c (text d)) (feed_canonical c d)
unfolding feed_canonical
feed_canonical-Shows c d v =
    let t = d.termios in
    let s = text-Shows d v in
    let sized = length-items d.line_length 0 d.line in
    elim (Bool-cases ((c == t.verase) || (c == 127))) [
      | inl a ↦ rw (a) (erase-Shows d v)
      | inr a ↦ elim (Bool-cases (c == t.vkill)) [
        | inl b ↦ rw (a, b) (kill_line-Shows d.line_length t (text d) d refl s)
        | inr b ↦ elim (Bool-cases (c == t.veof)) [
          | inl f ↦ rw (a, b, f) (end-Shows d v)
          | inr f ↦ elim (Bool-cases (c == 10)) [
            | inl n ↦
                rw (a, b, f, n)
                  (line_feed-Shows t (text d) (echo 10 d) (echo-Shows 10 t (text d) d s))
            | inr n ↦ elim (Bool-cases (ltb (d.line_length + 1) line_buffer_size)) [
              | inl l ↦
                  rw (a, b, f, n, sized, l)
                    (echo-Shows c t (record (text d) { line = typed d ++ (c ∷ []) })
                      (append_line c d) (append_line-Shows c t (text d) d (ground arith) s))
              | inr l ↦ rw (a, b, f, n, sized, l) s
            ]
          ]
        ]
      ]
    ]

feed_character-Shows :
    (c : ℕ) (d : LineDiscipline)
    → IsValid d
    → Shows d.termios (edit_character d.termios c (text d)) (feed_character c d)
feed_character-Shows c d v =
    let t = d.termios in
    let s = text-Shows d v in
    elim (Bool-cases (generated c t == 0)) [
      | inr g ↦
          let x : Text = record (text d) { line = [] } in
          let echoed = echo-Shows 10 t (text d) (echo c d) (echo-Shows c t (text d) d s) in
          rw (g) (
            signal_foreground_group-Shows (generated c t) t x (emptied (echo 10 (echo c d)))
              (emptied-Shows t (text d) (echo 10 (echo c d)) echoed))
      | inl g ↦ elim (Bool-cases t.icanon) [
        | inl m ↦ simp (g, m) (feed_canonical-Shows c d v)
        | inr m ↦
            let x : Text = record (text d) { held = enqueue (c ∷ []) (queue d) } in
            simp (g, m) (echo-Shows c t x (push_ready c d) (push_ready-Shows c t (text d) d s))
      ]
    ]

-- For any character and any settings, `feed` on a valid terminal leaves a valid terminal with the same
-- settings, whose line and ready bytes are those of an editor of lines: a character that signals or kills
-- empties the line, an erase takes its last character off, a line feed or an end of file hands the line
-- over, each as far as the queue has room, and any other character is added while the line is short; in
-- raw mode the character goes to the queue.
pub feed-edit :
    (c : ℕ) (d : LineDiscipline)
    → IsValid d
    → Shows d.termios (edit d.termios c (text d)) (feed c d)
unfolding feed
feed-edit c d v = feed_character-Shows (if d.termios.icrnl && (c == 13) then 10 else c) d v

-- ===== src/Kernel/Tty/Tests.antt =====
-- Runs of terminals on small inputs.
use shit_os.Prelude.{
  ◌+◌, ◌<◌, ◌≡◌, refl, arith, true, false, ◌==◌, if◌then◌else◌, some, [], ◌∷◌, ◌++◌, length,
}
use shit_os.Kernel.Pipe.Contents.{items}
use shit_os.Kernel.Tty.Discipline.{
  line_buffer_size, LineDiscipline, default_termios, feed, adopt, read,
}
use shit_os.Kernel.Tty.Queue.{IsValid, queue, typed, enqueue}
use shit_os.Kernel.Tty.Editing.{Shows, edit, text}
use shit_os.Kernel.Tty.Feed.{feed-edit}
use shit_os.Kernel.Tty.Typing.{feed_all, all_plain, feed_all_lem}
use shit_os.Kernel.Tty.Reading.{ReadOutcome, read-ReadOutcome}

-- "ls" is being typed, and two bytes are ready
abbrev terminal : LineDiscipline
terminal = record {
  termios = default_termios;
  line = λ i. if i == 0 then 108 else 115;
  line_length = 2;
  ready = λ i. 65 + i;
  ready_head = 2;
  ready_tail = 0;
  foreground_group = 7;
  saw_eof = false;
  hung_up = false;
  adopts_readers = true;
  echoed = [];
  raised = [];
}

terminal-IsValid : IsValid terminal
terminal-IsValid = record { head = omega arith; tail = omega arith; short = omega arith }

feed_example : Shows default_termios (edit default_termios 8 (text terminal)) (feed 8 terminal)
feed_example = feed-edit 8 terminal terminal-IsValid

feed_all_example : text (feed_all ((32 ∷ 47 ∷ []) ++ (10 ∷ [])) terminal) ≡ record {
  line = [];
  held = enqueue ((typed terminal ++ (32 ∷ 47 ∷ [])) ++ (10 ∷ [])) (queue terminal);
}
feed_all_example = feed_all_lem (32 ∷ 47 ∷ []) terminal terminal-IsValid refl plain refl room
  where
    room : length (typed terminal) + 2 < line_buffer_size
    room = unfold items in omega arith

    plain : all_plain default_termios (32 ∷ 47 ∷ []) ≡ true
    plain = unfold all_plain in refl

read_ready_example :
    ReadOutcome
      (some 7)
      1
      (adopt (some 7) (λ g. true) terminal)
      (read (some 7) (λ g. true) 1 terminal)
read_ready_example = read-ReadOutcome (some 7) (λ g. true) 1 terminal (omega arith) terminal-IsValid

-- ===== src/Kernel/Tty/Discipline.antt =====
-- kernel/dev/line_discipline.cpp: LineDiscipline. A `char` is its byte, 0 to 255, and as it is signed a
-- byte of 128 or more is less than 0. `echoed` keeps what `m_echo` was called with, which `configure` has
-- set, and `raised` the signals sent to the foreground group, both latest first. The wait queue is left
-- out, as for pipes, and an operation runs here without another on the same terminal beside it, though the
-- source takes no lock.
use shit_os.Prelude.{
  ℕ, zero, suc, ◌+◌, ◌-◌, ◌*◌, ◌%◌, Bool, true, false, not, ◌&&◌, ◌||◌, Option, none, some, List,
  [], ◌∷◌, ◌++◌, ltb, leb, ◌==◌, if◌then◌else◌,
}

abbrev pub line_buffer_size : ℕ
line_buffer_size = 1024

abbrev pub ready_buffer_size : ℕ
ready_buffer_size = line_buffer_size * 4

-- the flags and characters of `struct termios` that are read here
pub record Termios : Type 0 where
  pub icrnl : Bool
  pub isig : Bool
  pub icanon : Bool
  pub echo : Bool
  pub vintr : ℕ
  pub vquit : ℕ
  pub verase : ℕ
  pub vkill : ℕ
  pub veof : ℕ
  pub vsusp : ℕ

pub record LineDiscipline : Type 0 where
  pub termios : Termios
  pub line : ℕ → ℕ
  pub line_length : ℕ
  pub ready : ℕ → ℕ
  pub ready_head : ℕ
  pub ready_tail : ℕ
  pub foreground_group : ℕ
  pub saw_eof : Bool
  pub hung_up : Bool
  pub adopts_readers : Bool
  pub echoed : List ℕ
  pub raised : List ℕ

abbrev pub default_termios : Termios
default_termios = record {
  icrnl = true;
  isig = true;
  icanon = true;
  echo = true;
  vintr = 3;
  vquit = 28;
  verase = 8;
  vkill = 21;
  veof = 4;
  vsusp = 26;
}

abbrev pub shown : List ℕ → LineDiscipline → LineDiscipline
shown bytes d = record d { echoed = bytes ++ d.echoed }

-- `c >= 32 && c < 127` and `c < 32`, on a signed `char`
abbrev pub is_printable : ℕ → Bool
is_printable c = leb 32 c && ltb c 127

abbrev pub is_below_space : ℕ → Bool
is_below_space c = ltb c 32 || leb 128 c

-- what is echoed for a character, latest first
abbrev pub echo_of : ℕ → List ℕ
echo_of c =
    if c == 10
    then 10 ∷ []
    else if c == 8
    then 8 ∷ 32 ∷ 8 ∷ []
    else if is_printable c
    then c ∷ []
    else if is_below_space c
    then (c + 64) % 256 ∷ 94 ∷ []
    else []

unfoldable pub echo : ℕ → LineDiscipline → LineDiscipline
echo c d = if d.termios.echo then shown (echo_of c) d else d

abbrev pub stored : ℕ → ℕ → (ℕ → ℕ) → ℕ → ℕ
stored index byte buffer i = if i == index then byte else buffer i

unfoldable pub push_ready : ℕ → LineDiscipline → LineDiscipline
push_ready c d =
    let next = (d.ready_head + 1) % ready_buffer_size in
    if next == d.ready_tail
    then d
    else record d { ready = stored d.ready_head c d.ready; ready_head = next }

-- the loop of `commit_line`, on what is left of the line
unfoldable pub push_line : ℕ → ℕ → LineDiscipline → LineDiscipline
push_line zero i d = d
push_line (suc left) i d = push_line left (i + 1) (push_ready (d.line i) d)

unfoldable pub commit_line : LineDiscipline → LineDiscipline
commit_line d = record (push_line d.line_length 0 d) { line_length = 0 }

abbrev pub signal_foreground_group : ℕ → LineDiscipline → LineDiscipline
signal_foreground_group signal d =
    if d.foreground_group == 0 then d else record d { raised = signal ∷ d.raised }

abbrev pub set_hung_up : Bool → LineDiscipline → LineDiscipline
set_hung_up hung_up d = record d { hung_up = hung_up }

-- SIGINT, SIGQUIT and SIGTSTP
abbrev pub sigint : ℕ
sigint = 2

abbrev pub sigquit : ℕ
sigquit = 3

abbrev pub sigtstp : ℕ
sigtstp = 20

-- the signal a character generates, or 0
abbrev pub generated : ℕ → Termios → ℕ
generated c t =
    if t.isig
    then (if c == t.vintr
        then sigint
        else if c == t.vquit
        then sigquit
        else if c == t.vsusp
        then sigtstp
        else 0)
    else 0

abbrev pub append_line : ℕ → LineDiscipline → LineDiscipline
append_line c d = record d { line = stored d.line_length c d.line; line_length = d.line_length + 1 }

-- the loop for VKILL, on the length of the line
unfoldable pub kill_line : ℕ → LineDiscipline → LineDiscipline
kill_line zero d = d
kill_line (suc left) d = kill_line left (echo 8 (record d { line_length = d.line_length - 1 }))

-- the part of `feed` for canonical mode, by its tests
unfoldable pub feed_canonical : ℕ → LineDiscipline → LineDiscipline
feed_canonical c d =
    if (c == d.termios.verase) || (c == 127)
    then (if ltb 0 d.line_length then echo 8 (record d { line_length = d.line_length - 1 }) else d)
    else if c == d.termios.vkill
    then kill_line d.line_length d
    else if c == d.termios.veof
    then commit_line (if d.line_length == 0 then record d { saw_eof = true } else d)
    else if c == 10
    then (let shown = echo 10 d in
        commit_line
          (if ltb shown.line_length line_buffer_size then append_line 10 shown else shown))
    else if ltb (d.line_length + 1) line_buffer_size
    then echo c (append_line c d)
    else d

abbrev pub interrupted_by : ℕ → ℕ → LineDiscipline → LineDiscipline
interrupted_by signal c d =
    signal_foreground_group signal (record (echo 10 (echo c d)) { line_length = 0 })

abbrev pub feed_character : ℕ → LineDiscipline → LineDiscipline
feed_character c d =
    let signal = generated c d.termios in
    if not (signal == 0)
    then interrupted_by signal c d
    else if not d.termios.icanon
    then echo c (push_ready c d)
    else feed_canonical c d

unfoldable pub feed : ℕ → LineDiscipline → LineDiscipline
feed c d = feed_character (if d.termios.icrnl && (c == 13) then 10 else c) d

abbrev pub has_input : LineDiscipline → Bool
has_input d = not (d.ready_head == d.ready_tail) || (d.saw_eof || d.hung_up)

-- a turn of `read`: it waits, is stopped (SIGTTIN raised, EINTR), is interrupted (EINTR), or answers
pub data Turn : Type 0 where
  waits : Turn
  stopped : Turn
  interrupted : Turn
  answers : List ℕ → Turn

-- the copying loop, on what is left of the length
unfoldable pub copy_out : ℕ → LineDiscipline → List ℕ × LineDiscipline
copy_out zero d = ([], d)
copy_out (suc n) d =
    let rest = copy_out n (record d { ready_tail = (d.ready_tail + 1) % ready_buffer_size }) in
    if d.ready_head == d.ready_tail then ([], d) else (d.ready d.ready_tail ∷ rest.0, rest.1)

-- the loop up to its wait
unfoldable pub read_ready : ℕ → LineDiscipline → Turn × LineDiscipline
read_ready n d =
    let out = copy_out n d in
    if d.ready_head == d.ready_tail
    then (if d.saw_eof
        then (answers [], record d { saw_eof = false })
        else if d.hung_up
        then (answers [], d)
        else (waits, d))
    else (answers out.0, out.1)

abbrev pub adopted : Option ℕ → Bool → ℕ → ℕ
adopted none free group = group
adopted (some pgid) free group = if free then pgid else group

-- the group's change before the read: the reader's group, if there is a reader, and the groups there are
unfoldable pub adopt : Option ℕ → (ℕ → Bool) → LineDiscipline → LineDiscipline
adopt reader group_exists d =
    let group =
      if not (d.foreground_group == 0) && not (group_exists d.foreground_group)
      then 0
      else d.foreground_group in
    record d { foreground_group = adopted reader (d.adopts_readers && (group == 0)) group }

-- is the reader in the background?
abbrev pub is_background : Option ℕ → ℕ → Bool
is_background none group = false
is_background (some pgid) group = not (group == 0) && not (pgid == group)

unfoldable pub read : Option ℕ → (ℕ → Bool) → ℕ → LineDiscipline → Turn × LineDiscipline
read reader group_exists n d =
    let owned = adopt reader group_exists d in
    if n == 0
    then (answers [], d)
    else if is_background reader owned.foreground_group
    then (stopped, owned)
    else read_ready n owned

-- the turn after a wait
unfoldable pub resume : Bool → ℕ → LineDiscipline → Turn × LineDiscipline
resume signalled n d = if signalled then (interrupted, d) else read_ready n d

-- ===== src/Libc/Regex/Matcher.antt =====
-- user/libc/src/regex.c: the matcher. A call of `match_branch`, `match_group` or
-- `run_continuation` is a `Goal`, which `search` runs: each takes one off the budget, as in the source, and
-- so a budget is fuel enough. A budget of 0 is one that the next call exhausts. A string is shorter than 2^31
-- bytes, so that a regoff_t holds its positions.
use shit_os.Prelude.{
  ℕ, zero, suc, ◌+◌, ◌-◌, ◌*◌, min, Bool, true, false, not, ◌&&◌, ◌||◌, Option, none, some, ltb,
  leb, ◌==◌, if◌then◌else◌,
}
use shit_os.Libc.Regex.{
  Atom, literal, any, set, group, backref, Branch, finish, piece, Alternation, no_branch, branch,
  Subject, same_character, character_matches, holds,
}

-- regmatch_t, with `none` for -1
pub record Span : Type 0 where
  pub start : Option ℕ
  pub end : Option ℕ

-- Continuation: the empty one, and the loop of a group, with what the source reaches through its branch
-- and index
pub data Continuation : Type 0 where
  done : Continuation
  group_loop : Alternation → ℕ → ℕ → Option ℕ → Branch → Continuation → ℕ → ℕ → Continuation

-- what changes in a Matcher
pub record State : Type 0 where
  pub captures : ℕ → Span
  pub best : ℕ → Span
  pub found : Bool
  pub best_end : ℕ
  pub budget : ℕ

-- a call: of `match_branch`, of `match_group`, of `run_continuation`
pub data Goal : Type 0 where
  at_branch : Branch → ℕ → Continuation → Goal
  at_group : Alternation → ℕ → ℕ → Option ℕ → Branch → ℕ → Continuation → ℕ → Goal
  at_continuation : Continuation → ℕ → Goal

abbrev pub Call : Type 0
Call = Goal → State → Bool × State

abbrev pub put_span : ℕ → Span → (ℕ → Span) → ℕ → Span
put_span index span spans i = if i == index then span else spans i

-- what the empty continuation leaves: a match that ends there as the best
abbrev pub recorded : ℕ → State → State
recorded position s = record s {
  found = true;
  best_end = position;
  best = put_span 0 (record { start = (s.captures 0).start; end = some position }) s.captures;
}

-- the empty continuation
abbrev pub record_match : ℕ → State → State
record_match position s = if not s.found || ltb s.best_end position then recorded position s else s

abbrev pub or_else : Bool × State → (State → Bool × State) → Bool × State
or_else (true, s) more = (true, s)
or_else (false, s) more = more s

-- the loop of `match_alternation`
unfoldable pub match_alternation : Call → Alternation → ℕ → Continuation → State → Bool × State
match_alternation call no_branch position next s = (false, s)
match_alternation call (branch b rest) position next s =
    or_else (call (at_branch b position next) s) (match_alternation call rest position next)

-- how many times a test holds one after another, with so much room
unfoldable pub greedy : (ℕ → Bool) → ℕ → ℕ → ℕ
greedy test zero taken = taken
greedy test (suc room) taken =
    let more = greedy test room (taken + 1) in if test taken then more else taken

abbrev pub at_most : Option ℕ → ℕ → ℕ
at_most none room = room
at_most (some maximum) room = min maximum room

abbrev pub allows : Option ℕ → ℕ → Bool
allows none taken = true
allows (some maximum) taken = ltb taken maximum

-- the loop that gives back: the counts from the least and so many more, down to the least
unfoldable pub give_back : Call → Branch → ℕ → ℕ → Continuation → ℕ → ℕ → State → Bool × State
give_back call rest position width next least zero s =
    call (at_branch rest (position + least * width) next) s
give_back call rest position width next least (suc extra) s =
    or_else (call (at_branch rest (position + (least + suc extra) * width) next) s)
      (give_back call rest position width next least extra)

abbrev pub repeated : Call → Branch → ℕ → ℕ → Continuation → ℕ → ℕ → State → Bool × State
repeated call rest position width next minimum taken s =
    if ltb taken minimum
    then (false, s)
    else give_back call rest position width next minimum (taken - minimum) s

abbrev pub restored : ℕ → Span → Bool × State → Bool × State
restored index span (true, s) = (true, s)
restored index span (false, s) = (false, record s { captures = put_span index span s.captures })

-- `group_loop_run`: from the position where the body ended
abbrev pub close_loop :
    Call → Alternation → ℕ → ℕ → Option ℕ → Branch → Continuation → ℕ → ℕ → ℕ → State → Bool × State
close_loop call alternation index minimum maximum rest after start taken position s =
    let empty = position == start in
    let spans =
      if not empty || (taken == 0)
      then put_span index (record { start = some start; end = some position }) s.captures
      else s.captures in
    restored index (s.captures index) (
      if empty
      then call (at_branch rest position after) (record s { captures = spans })
      else call (at_group alternation index minimum maximum rest position after (taken + 1))
          (record s { captures = spans }))

-- the end of `match_group`, when one more iteration did not do
abbrev pub leave_group : Call → ℕ → Branch → ℕ → Continuation → ℕ → State → Bool × State
leave_group call minimum rest position next taken s =
    if leb minimum taken then call (at_branch rest position next) s else (false, s)

abbrev pub run_group :
    Call → Alternation → ℕ → ℕ → Option ℕ → Branch → ℕ → Continuation → ℕ → State → Bool × State
run_group call alternation index minimum maximum rest position next taken s =
    or_else
      (if allows maximum taken
        then restored index (s.captures index) (
            match_alternation call alternation position
              (group_loop alternation index minimum maximum rest next position taken) s)
        else (false, s))
      (leave_group call minimum rest position next taken)

-- is the text at a place that of a capture?
unfoldable pub same_text : Subject → ℕ → ℕ → ℕ → Bool
same_text m from at zero = true
same_text m from at (suc width) =
    same_character m (m.string at) (m.string from) && same_text m (from + 1) (at + 1) width

-- without a greatest number, a text that is not empty fits no more often than the string has bytes
abbrev pub run_backref :
    Subject
    → Call
    → Option ℕ
    → Option ℕ
    → ℕ
    → Option ℕ
    → Branch
    → ℕ
    → Continuation
    → State
    → Bool × State
run_backref m call (some from) (some to) minimum maximum rest position next s =
    let width = to - from in
    let fits : ℕ → Bool = λ taken.
      leb (position + taken * width + width) m.length
      && same_text m from (position + taken * width) width in
    if width == 0
    then call (at_branch rest position next) s
    else repeated call rest position width next minimum (greedy fits (at_most maximum m.length) 0) s
run_backref m call start end minimum maximum rest position next s =
    if minimum == 0 then call (at_branch rest position next) s else (false, s)

abbrev pub run_character :
    Subject → Call → Atom → ℕ → Option ℕ → Branch → ℕ → Continuation → State → Bool × State
run_character m call atom minimum maximum rest position next s =
    repeated call rest position 1 next minimum
      (greedy (λ taken. character_matches m atom (m.string (position + taken)))
        (at_most maximum (m.length - position)) 0)
      s

abbrev pub run_assertion : Subject → Call → Atom → Branch → ℕ → Continuation → State → Bool × State
run_assertion m call atom rest position next s =
    if holds m atom position then call (at_branch rest position next) s else (false, s)

abbrev pub run_piece :
    Subject → Call → Atom → ℕ → Option ℕ → Branch → ℕ → Continuation → State → Bool × State
run_piece m call (literal c) minimum maximum rest position next s =
    run_character m call (literal c) minimum maximum rest position next s
run_piece m call any minimum maximum rest position next s =
    run_character m call any minimum maximum rest position next s
run_piece m call (set has) minimum maximum rest position next s =
    run_character m call (set has) minimum maximum rest position next s
run_piece m call (backref n) minimum maximum rest position next s =
    run_backref m call (s.captures n).start (s.captures n).end minimum maximum rest position next s
run_piece m call (group alternation index) minimum maximum rest position next s =
    call (at_group alternation index minimum maximum rest position next 0) s
run_piece m call atom minimum maximum rest position next s =
    run_assertion m call atom rest position next s

-- the body of a call, by the calls that it makes
abbrev pub body : Subject → Call → Goal → State → Bool × State
body m call (at_branch finish position next) s = call (at_continuation next position) s
body m call (at_branch (piece atom minimum maximum rest) position next) s =
    run_piece m call atom minimum maximum rest position next s
body m call (at_group alternation index minimum maximum rest position next taken) s =
    run_group call alternation index minimum maximum rest position next taken s
body m call (at_continuation done position) s = (false, record_match position s)
body m call
      (at_continuation
        (group_loop alternation index minimum maximum rest after start taken)
        position)
      s =
    close_loop call alternation index minimum maximum rest after start taken position s

unfoldable pub search : Subject → ℕ → Call
search m zero goal s = (true, s)
search m (suc fuel) goal s =
    let result = body m (search m fuel) goal (record s { budget = s.budget - 1 }) in
    if s.budget == 0 then (true, s) else result

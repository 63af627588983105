-- ===== src/Kernel/Tty/Typing.antt =====
-- kernel/dev/line_discipline.cpp: characters one after another.
use shit_os.Prelude.{
  ℕ, ◌+◌, ◌<◌, ◌≡◌, ◌∙◌, refl, ap, sym, arith, Bool, true, false, not, ◌&&◌, ◌||◌, List, [], ◌∷◌,
  ◌++◌, length, length-append, ltb, ◌==◌, both,
}
use mathlib.Core.List.{append-nil, append_assoc}
use shit_os.Kernel.Tty.Discipline.{LineDiscipline, Termios, line_buffer_size, generated, feed}
use shit_os.Kernel.Tty.Queue.{IsValid, queue, typed, enqueue}
use shit_os.Kernel.Tty.Editing.{Text, text, edit, Shows}
use shit_os.Kernel.Tty.Feed.{feed-edit}

-- feeding and editing all of some characters
unfoldable pub feed_all : List ℕ → LineDiscipline → LineDiscipline
feed_all [] d = d
feed_all (c ∷ cs) d = feed_all cs (feed c d)

unfoldable pub edit_all : Termios → List ℕ → Text → Text
edit_all t [] x = x
edit_all t (c ∷ cs) x = edit_all t cs (edit t c x)

abbrev with_line : List ℕ → List ℕ → Text
with_line held line = record { line = line; held = held }

-- neither a signal nor an editing character, nor the end of a line
abbrev pub is_plain : Termios → ℕ → Bool
is_plain t c =
    (generated c t == 0)
    && (not (t.icrnl && (c == 13))
        && (not ((c == t.verase) || (c == 127))
            && (not (c == t.vkill) && (not (c == t.veof) && not (c == 10)))))

unfoldable pub all_plain : Termios → List ℕ → Bool
all_plain t [] = true
all_plain t (c ∷ cs) = is_plain t c && all_plain t cs

feed-Shows :
    (c : ℕ) (t : Termios) (x : Text) (d : LineDiscipline)
    → Shows t x d
    → Shows t (edit t c x) (feed c d)
feed-Shows c t x d s =
    let same : text d ≡ x = λ i. record { line = s.line i; held = s.held i } in
    rw⁻¹ (s.termios, same) (feed-edit c d s.valid)

pub feed_all-Shows :
    (cs : List ℕ) (t : Termios) (x : Text) (d : LineDiscipline)
    → Shows t x d
    → Shows t (edit_all t cs x) (feed_all cs d)
unfolding feed_all edit_all
feed_all-Shows [] t x d s = s
feed_all-Shows (c ∷ cs) t x d s = feed_all-Shows cs t (edit t c x) (feed c d) (feed-Shows c t x d s)

edit-plain :
    (t : Termios) (c : ℕ) (x : Text)
    → t.icanon ≡ true
    → is_plain t c ≡ true
    → length x.line + 1 < line_buffer_size
    → edit t c x ≡ record x { line = x.line ++ (c ∷ []) }
edit-plain t c x m p l =
    let signal : (generated c t == 0) ≡ true = ground (arith, p) in
    let return : (t.icrnl && (c == 13)) ≡ false = ground (arith, p) in
    let erase : ((c == t.verase) || (c == 127)) ≡ false = ground (arith, p) in
    let kill : (c == t.vkill) ≡ false = ground (arith, p) in
    let end : (c == t.veof) ≡ false = ground (arith, p) in
    let feed : (c == 10) ≡ false = ground (arith, p) in
    let room : ltb (length x.line + 1) line_buffer_size ≡ true = ground arith in
    simp (return, signal, m, erase, kill, end, feed, room) refl

pub edit_all-plain :
    (cs : List ℕ) (t : Termios) (x : Text)
    → t.icanon ≡ true
    → all_plain t cs ≡ true
    → length x.line + length cs < line_buffer_size
    → edit_all t cs x ≡ record x { line = x.line ++ cs }
unfolding edit_all all_plain
edit_all-plain [] t x m p l = λ i. record { line = sym (append-nil x.line) i; held = x.held }
edit_all-plain (c ∷ cs) t x m p l =
    let parts = both (is_plain t c) (all_plain t cs) p in
    let one = edit-plain t c x m parts.0 (omega (arith, l)) in
    let x' : Text = record x { line = x.line ++ (c ∷ []) } in
    let longer = length-append x.line (c ∷ []) in
    let rest = edit_all-plain cs t x' m parts.1 (omega (arith, longer, l)) in
    ap (edit_all t cs) one ∙ rest ∙ ap (with_line x.held) (append_assoc x.line (c ∷ []) cs)

-- does a line feed end a line, and nothing else?
abbrev pub ends_lines : Termios → Bool
ends_lines t =
    (generated 10 t == 0) && (not (10 == t.verase) && (not (10 == t.vkill) && not (10 == t.veof)))

edit-line_feed :
    (t : Termios) (x : Text)
    → t.icanon ≡ true
    → ends_lines t ≡ true
    → edit t 10 x ≡ record { line = []; held = enqueue (x.line ++ (10 ∷ [])) x.held }
edit-line_feed t x m p =
    let return : (t.icrnl && (10 == 13)) ≡ false = ground arith in
    let signal : (generated 10 t == 0) ≡ true = ground (arith, p) in
    let erase : ((10 == t.verase) || (10 == 127)) ≡ false = ground (arith, p) in
    let kill : (10 == t.vkill) ≡ false = ground (arith, p) in
    let end : (10 == t.veof) ≡ false = ground (arith, p) in
    simp (return, signal, m, erase, kill, end) refl

feed_all-append :
    (cs ds : List ℕ) (d : LineDiscipline) → feed_all (cs ++ ds) d ≡ feed_all ds (feed_all cs d)
unfolding feed_all
feed_all-append [] ds d = refl
feed_all-append (c ∷ cs) ds d = feed_all-append cs ds (feed c d)

-- A line typed at a valid terminal in canonical mode, whose line feed only ends lines: when its characters
-- neither signal nor edit, and fit the line buffer with what is typed already, then after its line feed
-- no line is being typed, and the ready bytes are those before, what was typed, the line and a line feed,
-- as far as the queue has room.
pub feed_all_lem :
    (cs : List ℕ) (d : LineDiscipline)
    → IsValid d
    → d.termios.icanon ≡ true
    → all_plain d.termios cs ≡ true
    → ends_lines d.termios ≡ true
    → length (typed d) + length cs < line_buffer_size
    → text (feed_all (cs ++ (10 ∷ [])) d)
      ≡ record { line = []; held = enqueue ((typed d ++ cs) ++ (10 ∷ [])) (queue d) }
unfolding feed_all
feed_all_lem cs d v m p n l =
    let t = d.termios in
    let x' : Text = record (text d) { line = typed d ++ cs } in
    let start : Shows t (text d) d = record {
      valid = v;
      termios = refl;
      line = refl;
      held = refl;
    } in
    let shown : Shows t x' (feed_all cs d) =
      rw⁻¹ (edit_all-plain cs t (text d) m p l) (feed_all-Shows cs t (text d) d start) in
    let last = feed-Shows 10 t x' (feed_all cs d) shown in
    let all : text (feed 10 (feed_all cs d)) ≡ edit t 10 x' =
      λ i. record { line = last.line i; held = last.held i } in
    rw (feed_all-append cs (10 ∷ []) d) (all ∙ edit-line_feed t x' m n)

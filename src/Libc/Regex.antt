-- ===== src/Libc/Regex.antt =====
-- user/libc/src/regex.c: the compiled form of a regular expression and what it is matched against.
use shit_os.Prelude.{
  ℕ, ◌+◌, ◌-◌, Bool, true, false, not, ◌&&◌, ◌||◌, Option, ltb, leb, ◌==◌, if◌then◌else◌,
}
pub mod Matcher
pub mod Regexec
pub mod Language
pub mod Explores
pub mod Reaches
pub mod Greedy
pub mod Steps
pub mod Groups
pub mod Pieces
pub mod Search
pub mod Leftmost
pub mod Textbook
pub mod Asserted
pub mod Agreement
mod Tests

-- Atom, Piece, Branch and Alternation: a branch is its first piece and the rest, with the least and the
-- greatest number of repetitions, and `none` for no greatest
mutual
  pub data Atom : Type 0 where
    literal : ℕ → Atom
    any : Atom
    set : (ℕ → Bool) → Atom
    group : Alternation → ℕ → Atom
    backref : ℕ → Atom
    line_start : Atom
    line_end : Atom
    word_boundary : Atom
    not_word_boundary : Atom
    word_start : Atom
    word_end : Atom

  pub data Branch : Type 0 where
    finish : Branch
    piece : Atom → ℕ → Option ℕ → Branch → Branch

  pub data Alternation : Type 0 where
    no_branch : Alternation
    branch : Branch → Alternation → Alternation

-- what a matcher does not change: the string, and the flags that it reads
pub record Subject : Type 0 where
  pub string : ℕ → ℕ
  pub length : ℕ
  pub icase : Bool
  pub newline : Bool
  pub notbol : Bool
  pub noteol : Bool

abbrev pub is_alnum : ℕ → Bool
is_alnum c = (leb 65 c && leb c 90) || ((leb 97 c && leb c 122) || (leb 48 c && leb c 57))

abbrev pub is_word_character : ℕ → Bool
is_word_character c = is_alnum c || (c == 95)

abbrev pub tolower : ℕ → ℕ
tolower c = if leb 65 c && leb c 90 then c + 32 else c

abbrev pub same_character : Subject → ℕ → ℕ → Bool
same_character m a b = if m.icase then tolower a == tolower b else a == b

abbrev pub character_matches : Subject → Atom → ℕ → Bool
character_matches m (literal l) c = same_character m c l
character_matches m any c = true
character_matches m (set has) c = has c
character_matches m atom c = false

abbrev pub at_line_start : Subject → ℕ → Bool
at_line_start m position =
    if position == 0
    then not m.notbol
    else if m.newline
    then m.string (position - 1) == 10
    else false

abbrev pub at_line_end : Subject → ℕ → Bool
at_line_end m position =
    if position == m.length
    then not m.noteol
    else if m.newline
    then m.string position == 10
    else false

abbrev pub word_at : Subject → ℕ → Bool
word_at m position = ltb position m.length && is_word_character (m.string position)

abbrev pub word_before : Subject → ℕ → Bool
word_before m position = ltb 0 position && is_word_character (m.string (position - 1))

abbrev pub differ : Bool → Bool → Bool
differ true b = not b
differ false b = b

-- the condition of an assertion
abbrev pub holds : Subject → Atom → ℕ → Bool
holds m line_start p = at_line_start m p
holds m line_end p = at_line_end m p
holds m word_boundary p = differ (word_before m p) (word_at m p)
holds m not_word_boundary p = not (differ (word_before m p) (word_at m p))
holds m word_start p = not (word_before m p) && word_at m p
holds m word_end p = word_before m p && not (word_at m p)
holds m atom p = false

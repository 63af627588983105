-- ===== src/Libc/Regex/Tests.antt =====
-- user/libc/src/regex.c: concrete expressions.
use shit_os.Prelude.{
  ℕ, zero, suc, ◌≤◌, ◌≡◌, ◌⊎◌, refl, arith, true, false, some, ◌==◌, if◌then◌else◌,
}
use shit_os.Libc.Regex.{
  literal, group, line_start, word_boundary, Branch, finish, piece, Alternation, no_branch, branch,
  Subject,
}
use shit_os.Libc.Regex.Matcher.{Span, match_alternation, greedy, give_back, search}
use shit_os.Libc.Regex.Regexec.{no_match, matched, try_at, first_match, regexec}
use shit_os.Libc.Regex.Language.{is_regular}
use shit_os.Libc.Regex.Textbook.{InAlternation, is_simple, asks_assertions}
use shit_os.Libc.Regex.Leftmost.{whole, spans_of, Outlasts, IsLeftmostLongest}
use shit_os.Libc.Regex.Agreement.{regexec-IsLeftmostLongest, regexec-InAlternation}

-- xab
abbrev xab : ℕ → ℕ
xab i = if i == 0 then 120 else if i == 1 then 97 else 98

abbrev subject : Subject
subject = record {
  string = xab;
  length = 3;
  icase = false;
  newline = false;
  notbol = false;
  noteol = false;
}

abbrev one : ℕ → Branch → Branch
one c rest = piece (literal c) 1 (some 1) rest

-- (a|ab)
abbrev a_or_ab : Alternation
a_or_ab =
    branch
      (piece (group (branch (one 97 finish) (branch (one 97 (one 98 finish)) no_branch)) 1) 1
        (some 1) finish)
      no_branch

a_or_ab_plain : is_regular a_or_ab ≡ true
unfolding is_regular
a_or_ab_plain = refl

a_or_ab_simple : is_simple a_or_ab ≡ true
unfolding is_simple
a_or_ab_simple = refl

a_or_ab_asks : asks_assertions a_or_ab ≡ true
unfolding asks_assertions
a_or_ab_asks = refl

budget0 : (best : ℕ → Span) → (try_at subject a_or_ab best 0).budget ≡ 1999996
unfolding try_at match_alternation search greedy give_back
budget0 best = refl

budget1 : (best : ℕ → Span) → (try_at subject a_or_ab best 1).budget ≡ 1999985
unfolding try_at match_alternation search greedy give_back
budget1 best = refl

budget2 : (best : ℕ → Span) → (try_at subject a_or_ab best 2).budget ≡ 1999996
unfolding try_at match_alternation search greedy give_back
budget2 best = refl

budget3 : (best : ℕ → Span) → (try_at subject a_or_ab best 3).budget ≡ 1999996
unfolding try_at match_alternation search greedy give_back
budget3 best = refl

all_outlast : Outlasts subject a_or_ab
all_outlast best zero a = λ h. absurd (omega (arith, h, budget0 best))
all_outlast best (suc zero) a = λ h. absurd (omega (arith, h, budget1 best))
all_outlast best (suc (suc zero)) a = λ h. absurd (omega (arith, h, budget2 best))
all_outlast best (suc (suc (suc zero))) a = λ h. absurd (omega (arith, h, budget3 best))
all_outlast best (suc (suc (suc (suc k)))) a = absurd (omega (arith, a))

regexec-IsLeftmostLongest_example :
    ((regexec true false 1 subject a_or_ab ≡ no_match)
      × ((from to : ℕ) → from ≤ subject.length → ¬ InAlternation subject a_or_ab from to))
    ⊎ ((spans : ℕ → Span) × (from : ℕ) × (to : ℕ) × (regexec true false 1 subject a_or_ab
          ≡ matched spans)
        × (spans 0 ≡ whole from to)
        × IsLeftmostLongest (InAlternation subject a_or_ab) subject.length from to)
regexec-IsLeftmostLongest_example =
    regexec-IsLeftmostLongest subject a_or_ab a_or_ab_plain a_or_ab_simple false 1 a_or_ab_asks
      all_outlast

abbrev xab_spans : ℕ → Span
xab_spans i = spans_of (regexec true false 1 subject a_or_ab) i

xab_matched : regexec true false 1 subject a_or_ab ≡ matched xab_spans
unfolding regexec first_match try_at match_alternation search greedy give_back
xab_matched = refl

-- the longer branch, at the offset of the first
xab_whole : xab_spans 0 ≡ whole 1 3
unfolding regexec first_match try_at match_alternation search greedy give_back
xab_whole = refl

regexec-InAlternation_example :
    (from : ℕ) × (to : ℕ) × (xab_spans 0 ≡ whole from to) × InAlternation subject a_or_ab from to
regexec-InAlternation_example =
    regexec-InAlternation subject a_or_ab a_or_ab_plain a_or_ab_simple false 1 xab_spans xab_matched

-- (^|b){2}
abbrev start_or_b : Alternation
start_or_b =
    branch
      (piece
        (group (branch (piece line_start 1 (some 1) finish) (branch (one 98 finish) no_branch)) 1) 2
        (some 2) finish)
      no_branch

-- `b`
abbrev just_b : Subject
just_b = record {
  string = λ i. 98;
  length = 1;
  icase = false;
  newline = false;
  notbol = false;
  noteol = false;
}

-- an iteration that matches nothing is taken for the last, though another one would match more
empty_iteration_is_last : spans_of (regexec true false 1 just_b start_or_b) 0 ≡ whole 0 0
unfolding regexec first_match try_at match_alternation search greedy give_back
empty_iteration_is_last = refl

-- a\b?b
abbrev optional_boundary : Alternation
optional_boundary = branch (one 97 (piece word_boundary 0 (some 1) (one 98 finish))) no_branch

-- an optional assertion is asked for all the same
optional_is_asked : regexec true false 0 subject optional_boundary ≡ no_match
unfolding regexec first_match try_at match_alternation search greedy give_back
optional_is_asked = refl

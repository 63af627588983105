-- ===== src/Libc/Regex/Regexec.antt =====
-- user/libc/src/regex.c: regexec.
use shit_os.Prelude.{ℕ, zero, suc, ◌+◌, Bool, false, Option, none, some, leb, ◌==◌, if◌then◌else◌}
use shit_os.Libc.Regex.{Alternation, Subject}
use shit_os.Libc.Regex.Matcher.{Span, State, done, put_span, match_alternation, search}

abbrev pub match_budget : ℕ
match_budget = 2000000

abbrev pub fresh_spans : ℕ → ℕ → Span
fresh_spans start i =
    if i == 0
    then record { start = some start; end = none }
    else record { start = none; end = none }

-- the source starts with a `best_end` of -1, which nothing reads before a match is found
abbrev pub fresh : (ℕ → Span) → ℕ → State
fresh best start = record {
  captures = fresh_spans start;
  best = best;
  found = false;
  best_end = 0;
  budget = match_budget;
}

-- one start offset of `regexec`
unfoldable pub try_at : Subject → Alternation → (ℕ → Span) → ℕ → State
try_at m root best start =
    (match_alternation (search m match_budget) root start done (fresh best start)).1

-- the loop over the start offsets: the first at which anything matches, and the state then
unfoldable pub first_match : Subject → Alternation → ℕ → (ℕ → Span) → ℕ → Option (ℕ × State)
first_match m root zero best start = none
first_match m root (suc rounds) best start =
    let s = try_at m root best start in
    let later = first_match m root rounds s.best (start + 1) in
    if s.found then some (start, s) else later

-- `matches`, an entry at a time: all the spans, or with REG_NOSUB the first
abbrev pub reported : Bool → ℕ → (ℕ → Span) → ℕ → Span
reported nosub groups best i =
    if (if nosub then i == 0 else leb i groups) then best i else record { start = none; end = none }

-- the answers of regexec: REG_ESPACE, REG_NOMATCH and a match
pub data Answer : Type 0 where
  no_space : Answer
  no_match : Answer
  matched : (ℕ → Span) → Answer

abbrev pub answer_of : Bool → ℕ → Option (ℕ × State) → Answer
answer_of nosub groups none = no_match
answer_of nosub groups (some (start, s)) = matched (
    reported nosub groups (put_span 0 (record { start = some start; end = (s.best 0).end }) s.best))

-- `granted` is whether both arrays of captures were allocated. They start with zeros.
unfoldable pub regexec : Bool → Bool → ℕ → Subject → Alternation → Answer
regexec granted nosub groups m root =
    if granted
    then answer_of nosub groups
        (first_match m root (m.length + 1) (λ i. record { start = some 0; end = some 0 }) 0)
    else no_space

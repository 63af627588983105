-- ===== src/Libc/Regex/Reaches.antt =====
-- user/libc/src/regex.c: the ends that a call of the matcher looks for, by its expression and its continuation.
use shit_os.Prelude.{ℕ, ◌+◌, ◌≡◌, ◌≢◌, ◌⊎◌, Bool, true, ◌&&◌, ltb}
use shit_os.Libc.Regex.{Subject}
use shit_os.Libc.Regex.Matcher.{
  Continuation, done, group_loop, Goal, at_branch, at_group, at_continuation,
}
use shit_os.Libc.Regex.Language.{
  Iterates, MatchesAlternation, MatchesBranch, is_regular, is_regular_branch,
}

-- the rest of a branch, and then what comes after it
abbrev pub Then : (ℕ → ℕ → Type 0) → (ℕ → ℕ → Type 0) → ℕ → ℕ → Type 0
Then A B p e = (r : ℕ) × A p r × B r e

unfoldable pub Accepts : Subject → Continuation → ℕ → ℕ → Type 0
Accepts m done p e = p ≡ e
Accepts m (group_loop alternation index minimum maximum rest after start taken) p e =
    ((p ≡ start) × Then (MatchesBranch m rest) (Accepts m after) p e)
    ⊎ ((p ≢ start)
        × Then (Iterates (MatchesAlternation m alternation) minimum maximum (taken + 1))
            (Then (MatchesBranch m rest) (Accepts m after)) p e)

abbrev pub Reaches : Subject → Goal → ℕ → Type 0
Reaches m (at_branch b p next) e = Then (MatchesBranch m b) (Accepts m next) p e
Reaches m (at_group alternation index minimum maximum rest p next taken) e =
    Then (Iterates (MatchesAlternation m alternation) minimum maximum taken)
      (Then (MatchesBranch m rest) (Accepts m next)) p e
Reaches m (at_continuation next p) e = Accepts m next p e

unfoldable pub is_regular_continuation : Continuation → Bool
is_regular_continuation done = true
is_regular_continuation (group_loop alternation index minimum maximum rest after start taken) =
    (ltb 0 index && is_regular alternation)
    && (is_regular_branch rest && is_regular_continuation after)

abbrev pub is_regular_goal : Goal → Bool
is_regular_goal (at_branch b p next) = is_regular_branch b && is_regular_continuation next
is_regular_goal (at_group alternation index minimum maximum rest p next taken) =
    (ltb 0 index && is_regular alternation)
    && (is_regular_branch rest && is_regular_continuation next)
is_regular_goal (at_continuation next p) = is_regular_continuation next

-- ===== src/Libc/Regex/Language.antt =====
-- user/libc/src/regex.c: what an expression without back references matches, as relations between the
-- positions where a match starts and ends. They know nothing of budgets, captures or continuations.
use shit_os.Prelude.{ℕ, ◌+◌, ◌≤◌, ◌<◌, ◌≡◌, ◌≢◌, ◌⊎◌, Bool, true, false, ◌&&◌, Option, ltb}
use shit_os.Libc.Regex.{
  Atom, literal, any, set, group, backref, line_start, line_end, word_boundary, not_word_boundary,
  word_start, word_end, Branch, finish, piece, Alternation, no_branch, branch, Subject,
  character_matches, holds,
}
use shit_os.Libc.Regex.Matcher.{allows}

-- so many characters in a row
abbrev pub IsRun : Subject → Atom → Option ℕ → ℕ → ℕ → ℕ → Type 0
IsRun m atom maximum minimum p q =
    (n : ℕ) × (q ≡ p + n)
    × (minimum ≤ n)
    × ((k : ℕ)
        → k < n
        → (allows maximum k ≡ true)
          × (p + k < m.length)
          × (character_matches m atom (m.string (p + k)) ≡ true))

-- the iterations of a group after so many: an iteration that matches nothing is the last, and stands for
-- as many as are wanted
pub data Iterates (Body : ℕ → ℕ → Type 0) (minimum : ℕ) (maximum : Option ℕ)
    : ℕ → ℕ → ℕ → Type 0 where
  enough : (taken p : ℕ) → minimum ≤ taken → Iterates Body minimum maximum taken p p
  nothing :
      (taken p : ℕ)
      → allows maximum taken ≡ true
      → Body p p
      → Iterates Body minimum maximum taken p p
  once_more :
      (taken p r q : ℕ)
      → allows maximum taken ≡ true
      → Body p r
      → r ≢ p
      → Iterates Body minimum maximum (taken + 1) r q
      → Iterates Body minimum maximum taken p q

unfoldable mutual
  pub MatchesAlternation : Subject → Alternation → ℕ → ℕ → Type 0
  MatchesAlternation m no_branch p q = ⊥
  MatchesAlternation m (branch b rest) p q = MatchesBranch m b p q ⊎ MatchesAlternation m rest p q

  pub MatchesBranch : Subject → Branch → ℕ → ℕ → Type 0
  MatchesBranch m finish p q = p ≡ q
  MatchesBranch m (piece atom minimum maximum rest) p q =
      (r : ℕ) × MatchesPiece m atom minimum maximum p r × MatchesBranch m rest r q

  pub MatchesPiece : Subject → Atom → ℕ → Option ℕ → ℕ → ℕ → Type 0
  MatchesPiece m (literal c) minimum maximum p q = IsRun m (literal c) maximum minimum p q
  MatchesPiece m any minimum maximum p q = IsRun m any maximum minimum p q
  MatchesPiece m (set has) minimum maximum p q = IsRun m (set has) maximum minimum p q
  MatchesPiece m (group alternation index) minimum maximum p q =
      Iterates (MatchesAlternation m alternation) minimum maximum 0 p q
  MatchesPiece m (backref n) minimum maximum p q = ⊥
  MatchesPiece m line_start minimum maximum p q = (holds m line_start p ≡ true) × (p ≡ q)
  MatchesPiece m line_end minimum maximum p q = (holds m line_end p ≡ true) × (p ≡ q)
  MatchesPiece m word_boundary minimum maximum p q = (holds m word_boundary p ≡ true) × (p ≡ q)
  MatchesPiece m not_word_boundary minimum maximum p q =
      (holds m not_word_boundary p ≡ true) × (p ≡ q)
  MatchesPiece m word_start minimum maximum p q = (holds m word_start p ≡ true) × (p ≡ q)
  MatchesPiece m word_end minimum maximum p q = (holds m word_end p ≡ true) × (p ≡ q)

-- has an expression no back reference, and no group of the number of the whole match?
unfoldable mutual
  pub is_regular : Alternation → Bool
  is_regular no_branch = true
  is_regular (branch b rest) = is_regular_branch b && is_regular rest

  pub is_regular_branch : Branch → Bool
  is_regular_branch finish = true
  is_regular_branch (piece atom minimum maximum rest) =
      is_regular_atom atom && is_regular_branch rest

  pub is_regular_atom : Atom → Bool
  is_regular_atom (group alternation index) = ltb 0 index && is_regular alternation
  is_regular_atom (backref n) = false
  is_regular_atom atom = true

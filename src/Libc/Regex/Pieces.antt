-- ===== src/Libc/Regex/Pieces.antt =====
-- user/libc/src/regex.c: `match_branch` at each kind of piece.
use shit_os.Prelude.{ℕ, ◌≤◌, ◌≡◌, sym, refl, arith, Bool, true, ◌&&◌, Option, ltb, both, both_true}
use mathlib.Core.Path.{subst}
use shit_os.Libc.Regex.{
  Atom, literal, any, set, group, backref, line_start, line_end, word_boundary, not_word_boundary,
  word_start, word_end, Branch, piece, Subject, holds,
}
use shit_os.Libc.Regex.Matcher.{
  State, Continuation, Call, at_branch, at_group, run_piece, run_assertion,
}
use shit_os.Libc.Regex.Language.{
  MatchesBranch, MatchesPiece, is_regular, is_regular_branch, is_regular_atom,
}
use shit_os.Libc.Regex.Explores.{Explores, Explores-ends}
use shit_os.Libc.Regex.Reaches.{Then, Accepts, Reaches, is_regular_continuation}
use shit_os.Libc.Regex.Steps.{CallsExplore, run_character-Explores, run_assertion-Explores}

module _ (m : Subject) (from fuel : ℕ) (call : Call) (calls : CallsExplore m from fuel call) where
  -- the ends after a piece and the rest are those of the branch
  pieces :
      (atom : Atom) (minimum : ℕ) (maximum : Option ℕ) (rest : Branch) (p : ℕ) (next : Continuation)
      (s : State) (r : Bool × State)
      → Explores from
          (Then
            (MatchesPiece m atom minimum maximum)
            (Then (MatchesBranch m rest) (Accepts m next))
            p)
          s
          r
      → Explores from (Reaches m (at_branch (piece atom minimum maximum rest) p next)) s r
  unfolding MatchesBranch
  pieces atom minimum maximum rest p next s r x =
      Explores-ends from
        (Then (MatchesPiece m atom minimum maximum) (Then (MatchesBranch m rest) (Accepts m next))
          p)
        (Reaches m (at_branch (piece atom minimum maximum rest) p next)) s r
        (λ e (q, a, (k, b, c)). (k, (q, a, b), c)) (λ e (k, (q, a, b), c). (q, a, (k, b, c))) x

  asserted :
      (atom : Atom) (rest : Branch) (p : ℕ) (next : Continuation) (s : State)
      → is_regular_branch rest ≡ true
      → is_regular_continuation next ≡ true
      → s.budget ≤ fuel
      → Explores from
          (Then
            (λ (a b : ℕ). (holds m atom a ≡ true) × (a ≡ b))
            (Then (MatchesBranch m rest) (Accepts m next))
            p)
          s
          (run_assertion m call atom rest p next s)
  asserted atom rest p next s plain after few =
      let L = Then (MatchesBranch m rest) (Accepts m next) in
      Explores-ends from (λ e. (holds m atom p ≡ true) × L p e)
        (Then (λ (a b : ℕ). (holds m atom a ≡ true) × (a ≡ b)) L p) s
        (run_assertion m call atom rest p next s) (λ e (h, l). (p, (h, refl), l))
        (λ e (q, (h, same), l). (h, subst (λ (k : ℕ). L k e) (sym same) l))
        (run_assertion-Explores m from fuel call calls atom rest p next s plain after few)

  run_piece-Explores :
      (atom : Atom) (minimum : ℕ) (maximum : Option ℕ) (rest : Branch) (p : ℕ) (next : Continuation)
      (s : State)
      → is_regular_atom atom ≡ true
      → is_regular_branch rest ≡ true
      → is_regular_continuation next ≡ true
      → s.budget ≤ fuel
      → Explores from
          (Reaches m (at_branch (piece atom minimum maximum rest) p next))
          s
          (run_piece m call atom minimum maximum rest p next s)
  unfolding MatchesPiece is_regular_atom
  run_piece-Explores (literal c) minimum maximum rest p next s kind plain after few =
      pieces (literal c) minimum maximum rest p next s
        (run_piece m call (literal c) minimum maximum rest p next s)
        (run_character-Explores m from fuel call calls (literal c) minimum maximum rest p next s
          plain after few)
  run_piece-Explores any minimum maximum rest p next s kind plain after few =
      pieces any minimum maximum rest p next s (run_piece m call any minimum maximum rest p next s)
        (run_character-Explores m from fuel call calls any minimum maximum rest p next s plain after
          few)
  run_piece-Explores (set has) minimum maximum rest p next s kind plain after few =
      pieces (set has) minimum maximum rest p next s
        (run_piece m call (set has) minimum maximum rest p next s)
        (run_character-Explores m from fuel call calls (set has) minimum maximum rest p next s plain
          after few)
  run_piece-Explores (backref n) minimum maximum rest p next s kind plain after few =
      absurd (ground (arith, kind))
  run_piece-Explores (group alternation index) minimum maximum rest p next s kind plain after few =
      pieces (group alternation index) minimum maximum rest p next s
        (call (at_group alternation index minimum maximum rest p next 0) s)
        (calls (at_group alternation index minimum maximum rest p next 0) s
          (both_true (ltb 0 index && is_regular alternation)
            (is_regular_branch rest && is_regular_continuation next) kind
            (both_true (is_regular_branch rest) (is_regular_continuation next) plain after))
          few)
  run_piece-Explores line_start minimum maximum rest p next s kind plain after few =
      pieces line_start minimum maximum rest p next s
        (run_piece m call line_start minimum maximum rest p next s)
        (asserted line_start rest p next s plain after few)
  run_piece-Explores line_end minimum maximum rest p next s kind plain after few =
      pieces line_end minimum maximum rest p next s
        (run_piece m call line_end minimum maximum rest p next s)
        (asserted line_end rest p next s plain after few)
  run_piece-Explores word_boundary minimum maximum rest p next s kind plain after few =
      pieces word_boundary minimum maximum rest p next s
        (run_piece m call word_boundary minimum maximum rest p next s)
        (asserted word_boundary rest p next s plain after few)
  run_piece-Explores not_word_boundary minimum maximum rest p next s kind plain after few =
      pieces not_word_boundary minimum maximum rest p next s
        (run_piece m call not_word_boundary minimum maximum rest p next s)
        (asserted not_word_boundary rest p next s plain after few)
  run_piece-Explores word_start minimum maximum rest p next s kind plain after few =
      pieces word_start minimum maximum rest p next s
        (run_piece m call word_start minimum maximum rest p next s)
        (asserted word_start rest p next s plain after few)
  run_piece-Explores word_end minimum maximum rest p next s kind plain after few =
      pieces word_end minimum maximum rest p next s
        (run_piece m call word_end minimum maximum rest p next s)
        (asserted word_end rest p next s plain after few)

  pub match_branch-Explores :
      (atom : Atom) (minimum : ℕ) (maximum : Option ℕ) (rest : Branch) (p : ℕ) (next : Continuation)
      (s : State)
      → (is_regular_branch (piece atom minimum maximum rest) && is_regular_continuation next) ≡ true
      → s.budget ≤ fuel
      → Explores from
          (Reaches m (at_branch (piece atom minimum maximum rest) p next))
          s
          (run_piece m call atom minimum maximum rest p next s)
  unfolding is_regular_branch
  match_branch-Explores atom minimum maximum rest p next s plain few =
      let parts =
        both (is_regular_branch (piece atom minimum maximum rest)) (is_regular_continuation next)
          plain in
      let here = both (is_regular_atom atom) (is_regular_branch rest) parts.0 in
      run_piece-Explores atom minimum maximum rest p next s here.0 here.1 parts.1 few

-- ===== src/Libc/Regex/Agreement.antt =====
-- user/libc/src/regex.c: what the matcher looks for is the language of the expression, where its groups are
-- repeated with `*`, `+` or `?` or not at all.
use shit_os.Prelude.{ℕ, ◌+◌, ◌≤◌, ◌≡◌, ◌⊎◌, inl, inr, arith, Bool, true, Option, leb, both}
use mathlib.Core.Path.{subst}
use shit_os.Libc.Regex.{
  Atom, literal, any, set, group, backref, line_start, line_end, word_boundary, not_word_boundary,
  word_start, word_end, Branch, finish, piece, Alternation, no_branch, branch, Subject,
}
use shit_os.Libc.Regex.Language.{
  Iterates, enough, nothing, once_more, MatchesAlternation, MatchesBranch, MatchesPiece, is_regular,
}
use shit_os.Libc.Regex.Matcher.{Span}
use shit_os.Libc.Regex.Regexec.{no_match, matched, regexec}
use shit_os.Libc.Regex.Leftmost.{whole, Outlasts, IsLeftmostLongest, regexec_lem, regexec_sound}
use shit_os.Libc.Regex.Textbook.{
  within, Times, InAlternation, InBranch, InPiece, is_simple_repeat, is_simple, is_simple_branch,
  is_simple_piece, within-below, IsRun-Times, Iterates-Repeats, Repeats-Iterates, asks_assertions,
  asks_assertions_branch, asks_assertions_piece,
}
use shit_os.Libc.Regex.Asserted.{Asserts-InTimes, Times-Asserts}

-- iterations of a body are iterations of what it implies
Iterates-map :
    (B C : ℕ → ℕ → Type 0) (minimum : ℕ) (maximum : Option ℕ)
    → ((p q : ℕ) → B p q → C p q)
    → (taken p q : ℕ) → Iterates B minimum maximum taken p q
    → Iterates C minimum maximum taken p q
Iterates-map B C minimum maximum f taken p q (enough _ _ a) = enough taken p a
Iterates-map B C minimum maximum f taken p q (nothing _ _ a b) = nothing taken p a (f p p b)
Iterates-map B C minimum maximum f taken p q (once_more _ _ r _ a b d i) =
    once_more taken p r q a (f p r b) d (Iterates-map B C minimum maximum f (taken + 1) r q i)

Iterates-InTimes :
    (B C : ℕ → ℕ → Type 0) (minimum : ℕ) (maximum : Option ℕ)
    → is_simple_repeat minimum maximum ≡ true
    → ((p q : ℕ) → B p q → C p q)
    → (p q : ℕ) → Iterates B minimum maximum 0 p q
    → Times C minimum maximum p q
Iterates-InTimes B C minimum maximum simple f p q i =
    let fits = (both (leb minimum 1) (within maximum minimum) simple).1 in
    let x =
      Iterates-Repeats C minimum maximum simple 0 p q (Iterates-map B C minimum maximum f 0 p q i)
        (within-below maximum minimum 0 (omega arith) fits) in
    (x.0, omega (arith, x.1), subst (λ (k : ℕ). within maximum k ≡ true) (omega arith) x.2, x.3)

Times-Iterates :
    (B C : ℕ → ℕ → Type 0) (minimum : ℕ) (maximum : Option ℕ)
    → is_simple_repeat minimum maximum ≡ true
    → ((p q : ℕ) → C p q → B p q)
    → (p q : ℕ) → Times C minimum maximum p q
    → Iterates B minimum maximum 0 p q
Times-Iterates B C minimum maximum simple f p q (n, a, b, y) =
    Iterates-map C B minimum maximum f 0 p q (
      Repeats-Iterates C minimum maximum simple n 0 p q (omega (arith, a))
        (subst (λ (k : ℕ). within maximum k ≡ true) (omega arith) b) y)

-- what the matcher looks for is in the language
mutual
  unfolding MatchesAlternation MatchesBranch MatchesPiece InAlternation InBranch InPiece is_simple
      is_simple_branch is_simple_piece

  in_alternation :
      (m : Subject) (a : Alternation)
      → is_simple a ≡ true
      → (p q : ℕ) → MatchesAlternation m a p q
      → InAlternation m a p q
  in_alternation m no_branch simple p q x = x
  in_alternation m (branch b a) simple p q (inl x) =
      inl (in_branch m b (both (is_simple_branch b) (is_simple a) simple).0 p q x)
  in_alternation m (branch b a) simple p q (inr x) =
      inr (in_alternation m a (both (is_simple_branch b) (is_simple a) simple).1 p q x)

  in_branch :
      (m : Subject) (b : Branch)
      → is_simple_branch b ≡ true
      → (p q : ℕ) → MatchesBranch m b p q
      → InBranch m b p q
  in_branch m finish simple p q x = x
  in_branch m (piece atom minimum maximum rest) simple p q (r, x, y) =
      let parts = both (is_simple_piece atom minimum maximum) (is_simple_branch rest) simple in
      (r, in_piece m atom minimum maximum parts.0 p r x, in_branch m rest parts.1 r q y)

  in_piece :
      (m : Subject) (atom : Atom) (minimum : ℕ) (maximum : Option ℕ)
      → is_simple_piece atom minimum maximum ≡ true
      → (p q : ℕ) → MatchesPiece m atom minimum maximum p q
      → InPiece m atom minimum maximum p q
  in_piece m (literal c) minimum maximum simple p q x =
      (IsRun-Times m (literal c) minimum maximum p q).0 x
  in_piece m any minimum maximum simple p q x = (IsRun-Times m any minimum maximum p q).0 x
  in_piece m (set has) minimum maximum simple p q x =
      (IsRun-Times m (set has) minimum maximum p q).0 x
  in_piece m (backref n) minimum maximum simple p q x = x
  in_piece m line_start minimum maximum simple p q x =
      Asserts-InTimes m line_start minimum maximum p q simple x
  in_piece m line_end minimum maximum simple p q x =
      Asserts-InTimes m line_end minimum maximum p q simple x
  in_piece m word_boundary minimum maximum simple p q x =
      Asserts-InTimes m word_boundary minimum maximum p q simple x
  in_piece m not_word_boundary minimum maximum simple p q x =
      Asserts-InTimes m not_word_boundary minimum maximum p q simple x
  in_piece m word_start minimum maximum simple p q x =
      Asserts-InTimes m word_start minimum maximum p q simple x
  in_piece m word_end minimum maximum simple p q x =
      Asserts-InTimes m word_end minimum maximum p q simple x
  in_piece m (group alternation index) minimum maximum simple p q x =
      let parts = both (is_simple_repeat minimum maximum) (is_simple alternation) simple in
      Iterates-InTimes (MatchesAlternation m alternation) (InAlternation m alternation) minimum
        maximum parts.0 (in_alternation m alternation parts.1) p q x

-- and where no assertion is optional, the matcher looks for all of the language
mutual
  unfolding MatchesAlternation MatchesBranch MatchesPiece InAlternation InBranch InPiece is_simple
      is_simple_branch is_simple_piece asks_assertions asks_assertions_branch asks_assertions_piece

  of_alternation :
      (m : Subject) (a : Alternation)
      → is_simple a ≡ true
      → asks_assertions a ≡ true
      → (p q : ℕ) → InAlternation m a p q
      → MatchesAlternation m a p q
  of_alternation m no_branch simple asks p q x = x
  of_alternation m (branch b a) simple asks p q (inl x) = inl (
      of_branch m b (both (is_simple_branch b) (is_simple a) simple).0
        (both (asks_assertions_branch b) (asks_assertions a) asks).0 p q x)
  of_alternation m (branch b a) simple asks p q (inr x) = inr (
      of_alternation m a (both (is_simple_branch b) (is_simple a) simple).1
        (both (asks_assertions_branch b) (asks_assertions a) asks).1 p q x)

  of_branch :
      (m : Subject) (b : Branch)
      → is_simple_branch b ≡ true
      → asks_assertions_branch b ≡ true
      → (p q : ℕ) → InBranch m b p q
      → MatchesBranch m b p q
  of_branch m finish simple asks p q x = x
  of_branch m (piece atom minimum maximum rest) simple asks p q (r, x, y) =
      let parts = both (is_simple_piece atom minimum maximum) (is_simple_branch rest) simple in
      let asked = both (asks_assertions_piece atom minimum) (asks_assertions_branch rest) asks in
      (
        r,
        of_piece m atom minimum maximum parts.0 asked.0 p r x,
        of_branch m rest parts.1 asked.1 r q y,
      )

  of_piece :
      (m : Subject) (atom : Atom) (minimum : ℕ) (maximum : Option ℕ)
      → is_simple_piece atom minimum maximum ≡ true
      → asks_assertions_piece atom minimum ≡ true
      → (p q : ℕ) → InPiece m atom minimum maximum p q
      → MatchesPiece m atom minimum maximum p q
  of_piece m (literal c) minimum maximum simple asks p q x =
      (IsRun-Times m (literal c) minimum maximum p q).1 x
  of_piece m any minimum maximum simple asks p q x = (IsRun-Times m any minimum maximum p q).1 x
  of_piece m (set has) minimum maximum simple asks p q x =
      (IsRun-Times m (set has) minimum maximum p q).1 x
  of_piece m (backref n) minimum maximum simple asks p q x = x
  of_piece m line_start minimum maximum simple asks p q x =
      Times-Asserts m line_start minimum maximum p q asks x
  of_piece m line_end minimum maximum simple asks p q x =
      Times-Asserts m line_end minimum maximum p q asks x
  of_piece m word_boundary minimum maximum simple asks p q x =
      Times-Asserts m word_boundary minimum maximum p q asks x
  of_piece m not_word_boundary minimum maximum simple asks p q x =
      Times-Asserts m not_word_boundary minimum maximum p q asks x
  of_piece m word_start minimum maximum simple asks p q x =
      Times-Asserts m word_start minimum maximum p q asks x
  of_piece m word_end minimum maximum simple asks p q x =
      Times-Asserts m word_end minimum maximum p q asks x
  of_piece m (group alternation index) minimum maximum simple asks p q x =
      let parts = both (is_simple_repeat minimum maximum) (is_simple alternation) simple in
      Times-Iterates (MatchesAlternation m alternation) (InAlternation m alternation) minimum
        maximum parts.0 (of_alternation m alternation parts.1 asks) p q x

module _ (m : Subject) (root : Alternation) (plain : is_regular root ≡ true)
    (simple : is_simple root ≡ true) (nosub : Bool) (groups : ℕ) where
  -- For an expression without back references whose groups are repeated with `*`, `+` or `?` or not at all,
  -- and whose assertions are not optional (the matcher asks for an optional one all the same), where no start
  -- offset exhausts its budget: `regexec` reports no match only when no offset starts a text of the
  -- expression's language, and otherwise it reports as the whole match a text of the language at the leftmost
  -- offset that starts one, and the longest one there.
  pub regexec-IsLeftmostLongest :
      asks_assertions root ≡ true
      → Outlasts m root
      → ((regexec true nosub groups m root ≡ no_match)
          × ((from to : ℕ) → from ≤ m.length → ¬ InAlternation m root from to))
        ⊎ ((spans : ℕ → Span) × (from : ℕ) × (to : ℕ) × (regexec true nosub groups m root
              ≡ matched spans)
            × (spans 0 ≡ whole from to)
            × IsLeftmostLongest (InAlternation m root) m.length from to)
  regexec-IsLeftmostLongest asks outlasts = elim (regexec_lem m root plain nosub groups outlasts) [
    | inl (none_found, n) ↦
        inl (none_found, λ from to a x. n from to a (of_alternation m root simple asks from to x))
    | inr (spans, from, to, same, span, (a, here, longest, earlier)) ↦ inr (
      spans,
      from,
      to,
      same,
      span,
      (
        a,
        in_alternation m root simple from to here,
        λ e x. longest e (of_alternation m root simple asks from e x),
        λ k e l x. earlier k e l (of_alternation m root simple asks k e x),
      ),
    )
  ]

  -- What `regexec` reports as the whole match of an expression without back references, whose groups are repeated
  -- with `*`, `+` or `?` or not at all, is a text of its language, also when the budget runs out.
  pub regexec-InAlternation :
      (spans : ℕ → Span)
      → regexec true nosub groups m root ≡ matched spans
      → (from : ℕ) × (to : ℕ) × (spans 0 ≡ whole from to) × InAlternation m root from to
  regexec-InAlternation spans same =
      let x = regexec_sound m root plain nosub groups spans same in
      (x.0, x.1, x.2, in_alternation m root simple x.0 x.1 x.3)

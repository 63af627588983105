-- ===== src/Libc/Regex/Leftmost.antt =====
-- user/libc/src/regex.c: `regexec` over an expression without back references.
use shit_os.Prelude.{
  ℕ, zero, suc, ◌+◌, ◌≤◌, ◌<◌, ◌≡◌, ◌≢◌, ◌∙◌, sym, ap, ◌⊎◌, inl, inr, refl, arith, Bool, true,
  false, Option, none, some, ◌==◌, Bool-cases,
}
use mathlib.Core.Path.{subst}
use shit_os.Libc.Regex.{Alternation, Subject}
use shit_os.Libc.Regex.Matcher.{Span, State, put_span, done, match_alternation, search}
use shit_os.Libc.Regex.Regexec.{
  Answer, no_match, matched, match_budget, fresh, try_at, first_match, reported, answer_of, regexec,
}
use shit_os.Libc.Regex.Language.{MatchesAlternation, is_regular}
use shit_os.Libc.Regex.Explores.{Explores, Explores-ends}
use shit_os.Libc.Regex.Reaches.{Then, Accepts, is_regular_continuation}
use shit_os.Libc.Regex.Steps.{match_alternation-Explores}
use shit_os.Libc.Regex.Search.{search-Explores}

abbrev pub whole : ℕ → ℕ → Span
whole from to = record { start = some from; end = some to }

-- no start offset exhausts its budget
abbrev pub Outlasts : Subject → Alternation → Type 0
Outlasts m root =
    (best : ℕ → Span) (from : ℕ) → from ≤ m.length → (try_at m root best from).budget ≢ 0

abbrev pub spans_of : Answer → ℕ → Span
spans_of (matched spans) i = spans i
spans_of answer i = whole 0 0

-- a match, none longer from its offset, and none from an offset before
abbrev pub IsLeftmostLongest : (ℕ → ℕ → Type 0) → ℕ → ℕ → ℕ → Type 0
IsLeftmostLongest Match limit from to =
    (from ≤ limit)
    × Match from to
    × ((e : ℕ) → Match from e → e ≤ to)
    × ((k e : ℕ) → k < from → ¬ Match k e)

module _ (m : Subject) (root : Alternation) (plain : is_regular root ≡ true) where
  root-Explores :
      (best : ℕ → Span) (from : ℕ)
      → Explores from
          (MatchesAlternation m root from)
          (fresh best from)
          (match_alternation (search m match_budget) root from done (fresh best from))
  unfolding Accepts is_regular_continuation
  root-Explores best from =
      Explores-ends from (Then (MatchesAlternation m root) (Accepts m done) from)
        (MatchesAlternation m root from) (fresh best from)
        (match_alternation (search m match_budget) root from done (fresh best from))
        (λ e (r, x, same). subst (MatchesAlternation m root from) same x) (λ e x. (e, x, refl))
        (match_alternation-Explores m from match_budget (search m match_budget)
          (search-Explores m from match_budget) root from done (fresh best from) plain refl
          (omega arith))

  -- a match that is found at an offset is one, and starts there
  pub try_at_sound :
      (best : ℕ → Span) (from : ℕ)
      → (try_at m root best from).found ≡ true
      → MatchesAlternation m root from (try_at m root best from).best_end
        × ((try_at m root best from).best 0 ≡ whole from (try_at m root best from).best_end)
  unfolding try_at
  try_at_sound best from found =
      let x = root-Explores best from in
      let b = x.starts record { path = refl; best = λ h. absurd (ground (arith, h)) } in
      (
        elim x.sound [ inl a ↦ absurd (ground (arith, a.found, found)) | inr (_, y) ↦ y ],
        b.best found,
      )

  -- and unless the budget runs out, it is a longest one
  pub try_at_longest :
      (best : ℕ → Span) (from e : ℕ)
      → (try_at m root best from).budget ≢ 0
      → MatchesAlternation m root from e
      → ((try_at m root best from).found ≡ true) × (e ≤ (try_at m root best from).best_end)
  unfolding try_at
  try_at_longest best from e more y =
      let x = root-Explores best from in
      let r = match_alternation (search m match_budget) root from done (fresh best from) in
      elim (Bool-cases r.0) [ inl h ↦ absurd (more (x.spent h)) | inr h ↦ x.complete h e y ]

  IsMatch : Option (ℕ × State) → Type 0
  IsMatch none = Unit {0}
  IsMatch (some (k, s)) = MatchesAlternation m root k s.best_end × (s.best 0 ≡ whole k s.best_end)

  first_match-IsMatch :
      (rounds : ℕ) (best : ℕ → Span) (from : ℕ) → IsMatch (first_match m root rounds best from)
  unfolding first_match IsMatch
  first_match-IsMatch zero best from = tt
  first_match-IsMatch (suc rounds) best from = elim (Bool-cases (try_at m root best from).found) [
    | inl h ↦ simp (h) (try_at_sound best from h)
    | inr h ↦ simp (h) (first_match-IsMatch rounds (try_at m root best from).best (from + 1))
  ]

  -- the first offset at which anything matches, and the longest match there
  IsFirst : ℕ → ℕ → Option (ℕ × State) → Type 0
  IsFirst from limit none = (k e : ℕ) → from ≤ k → k < limit → ¬ MatchesAlternation m root k e
  IsFirst from limit (some (k, s)) =
      (k < limit)
      × ((e : ℕ) → MatchesAlternation m root k e → e ≤ s.best_end)
      × ((j e : ℕ) → from ≤ j → j < k → ¬ MatchesAlternation m root j e)

  -- an offset without a match before them
  later-IsFirst :
      (from limit : ℕ) (o : Option (ℕ × State))
      → ((e : ℕ) → ¬ MatchesAlternation m root from e)
      → IsFirst (from + 1) limit o
      → IsFirst from limit o
  unfolding IsFirst
  later-IsFirst from limit none n x = λ k e a b. elim (Bool-cases (k == from)) [
    | inl h ↦ λ y. n e (subst (λ (i : ℕ). MatchesAlternation m root i e) (ground (arith, h)) y)
    | inr h ↦ x k e (ground (arith, h, a)) b
  ]
  later-IsFirst from limit (some (k, s)) n (below, longest, earlier) = (
    below,
    longest,
    λ j e a b. elim (Bool-cases (j == from)) [
      | inl h ↦ λ y. n e (subst (λ (i : ℕ). MatchesAlternation m root i e) (ground (arith, h)) y)
      | inr h ↦ earlier j e (ground (arith, h, a)) b
    ],
  )

  first_match-IsFirst :
      (rounds : ℕ) (best : ℕ → Span) (from : ℕ)
      → from + rounds ≤ m.length + 1
      → Outlasts m root
      → IsFirst from (from + rounds) (first_match m root rounds best from)
  unfolding first_match IsFirst
  first_match-IsFirst zero best from room outlasts = λ k e a b. absurd (omega (arith, a, b))
  first_match-IsFirst (suc rounds) best from room outlasts =
      let here : (e : ℕ)
          → MatchesAlternation m root from e
          → ((try_at m root best from).found ≡ true) × (e ≤ (try_at m root best from).best_end) =
        λ e y. try_at_longest best from e (outlasts best from (omega (arith, room))) y in
      elim (Bool-cases (try_at m root best from).found) [
        | inl h ↦
            simp (h) (omega arith, λ e y. (here e y).1, λ j e a b. absurd (omega (arith, a, b)))
        | inr h ↦ simp (h) (
            subst
              (λ (limit : ℕ).
                IsFirst from limit
                  (first_match m root rounds (try_at m root best from).best (from + 1)))
              (omega arith)
              (later-IsFirst from (from + 1 + rounds)
                (first_match m root rounds (try_at m root best from).best (from + 1))
                (λ e y. ground (arith, h, (here e y).0))
                (first_match-IsFirst rounds (try_at m root best from).best (from + 1)
                  (omega (arith, room)) outlasts)))
      ]

  module _ (nosub : Bool) (groups : ℕ) where
    reported-first : (b : Bool) (best : ℕ → Span) → reported b groups best 0 ≡ best 0
    reported-first true best = refl
    reported-first false best = ground arith

    placed : ℕ → State → ℕ → Span
    placed k s = put_span 0 (record { start = some k; end = (s.best 0).end }) s.best

    reported-whole :
        (k : ℕ) (s : State)
        → s.best 0 ≡ whole k s.best_end
        → reported nosub groups (placed k s) 0 ≡ whole k s.best_end
    unfolding placed
    reported-whole k s span =
        reported-first nosub (placed k s)
        ∙ ap (λ (x : Span). record { start = some k; end = x.end }) span

    answer-Leftmost :
        (o : Option (ℕ × State))
        → IsMatch o
        → IsFirst 0 (m.length + 1) o
        → ((answer_of nosub groups o ≡ no_match)
            × ((from to : ℕ) → from ≤ m.length → ¬ MatchesAlternation m root from to))
          ⊎ ((spans : ℕ → Span) × (from : ℕ) × (to : ℕ) × (answer_of nosub groups o ≡ matched spans)
              × (spans 0 ≡ whole from to)
              × IsLeftmostLongest (MatchesAlternation m root) m.length from to)
    unfolding IsMatch IsFirst placed
    answer-Leftmost none x y = inl (refl, λ from to a. y from to (omega arith) (omega (arith, a)))
    answer-Leftmost (some (k, s)) (here, span) (below, longest, earlier) = inr (
      reported nosub groups (placed k s),
      k,
      s.best_end,
      refl,
      reported-whole k s span,
      (omega (arith, below), here, longest, λ j e a. earlier j e (omega arith) a),
    )

    answer_sound :
        (o : Option (ℕ × State)) (spans : ℕ → Span)
        → IsMatch o
        → answer_of nosub groups o ≡ matched spans
        → (from : ℕ) × (to : ℕ) × (spans 0 ≡ whole from to) × MatchesAlternation m root from to
    unfolding IsMatch placed
    answer_sound none spans x same = absurd (ground (arith, same))
    answer_sound (some (k, s)) spans (here, span) same = (
      k,
      s.best_end,
      sym (ap (λ (a : Answer). (spans_of a) 0) same) ∙ reported-whole k s span,
      here,
    )

    -- Where no start offset exhausts its budget, `regexec` over an expression without back references
    -- reports no match only when there is none at any offset, and otherwise reports as the whole match
    -- a match of the expression at the leftmost offset that has one, and a longest match there.
    pub regexec_lem :
        Outlasts m root
        → ((regexec true nosub groups m root ≡ no_match)
            × ((from to : ℕ) → from ≤ m.length → ¬ MatchesAlternation m root from to))
          ⊎ ((spans : ℕ → Span) × (from : ℕ) × (to : ℕ) × (regexec true nosub groups m root
                ≡ matched spans)
              × (spans 0 ≡ whole from to)
              × IsLeftmostLongest (MatchesAlternation m root) m.length from to)
    unfolding regexec
    regexec_lem outlasts =
        let o = first_match m root (m.length + 1) (λ i. whole 0 0) 0 in
        answer-Leftmost o (first_match-IsMatch (m.length + 1) (λ i. whole 0 0) 0) (
          subst (λ (limit : ℕ). IsFirst 0 limit o) (omega arith)
            (first_match-IsFirst (m.length + 1) (λ i. whole 0 0) 0 (omega arith) outlasts))

    -- Whatever the budget does, what `regexec` reports as the whole match of an expression without back
    -- references is a match of the expression.
    pub regexec_sound :
        (spans : ℕ → Span)
        → regexec true nosub groups m root ≡ matched spans
        → (from : ℕ) × (to : ℕ) × (spans 0 ≡ whole from to) × MatchesAlternation m root from to
    unfolding regexec
    regexec_sound spans same =
        answer_sound (first_match m root (m.length + 1) (λ i. whole 0 0) 0) spans
          (first_match-IsMatch (m.length + 1) (λ i. whole 0 0) 0) same

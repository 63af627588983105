-- ===== src/Libc/Regex/Steps.antt =====
-- user/libc/src/regex.c: each part of a call's body finds the ends that it looks for, when the calls that it
-- makes do.
use shit_os.Prelude.{
  ℕ, zero, suc, ◌+◌, ◌-◌, ◌*◌, ◌≤◌, ◌≡◌, ◌⊎◌, inl, inr, arith, true, Option, ltb, ◌==◌, Bool-cases,
  both, both_true,
}
use mathlib.Core.Path.{subst}
use shit_os.Libc.Regex.{
  Atom, Branch, Alternation, no_branch, branch, Subject, character_matches, holds,
}
use shit_os.Libc.Regex.Matcher.{
  State, Continuation, Goal, Call, at_branch, match_alternation, greedy, at_most, give_back,
  repeated, run_character, run_assertion,
}
use shit_os.Libc.Regex.Language.{
  IsRun, MatchesAlternation, MatchesBranch, is_regular, is_regular_branch,
}
use shit_os.Libc.Regex.Explores.{
  Explores, nothing-Explores, Explores-ends, or_else-Explores, guarded-Explores,
}
use shit_os.Libc.Regex.Greedy.{IsRun-greedy}
use shit_os.Libc.Regex.Reaches.{Then, Accepts, Reaches, is_regular_continuation, is_regular_goal}

-- the calls of goals with no more than so much budget find what those goals look for
abbrev pub CallsExplore : Subject → ℕ → ℕ → Call → Type 0
CallsExplore m from fuel call =
    (goal : Goal) (s : State)
    → is_regular_goal goal ≡ true
    → s.budget ≤ fuel
    → Explores from (Reaches m goal) s (call goal s)

module _ (m : Subject) (from fuel : ℕ) (call : Call) (calls : CallsExplore m from fuel call) where
  pub match_alternation-Explores :
      (a : Alternation) (p : ℕ) (next : Continuation) (s : State)
      → is_regular a ≡ true
      → is_regular_continuation next ≡ true
      → s.budget ≤ fuel
      → Explores from
          (Then (MatchesAlternation m a) (Accepts m next) p)
          s
          (match_alternation call a p next s)
  unfolding match_alternation MatchesAlternation is_regular
  match_alternation-Explores no_branch p next s plain after few =
      nothing-Explores from (Then (MatchesAlternation m no_branch) (Accepts m next) p) s
        (λ e (r, x, _). x)
  match_alternation-Explores (branch b a) p next s plain after few =
      Explores-ends from
        (λ e. Reaches m (at_branch b p next) e ⊎ Then (MatchesAlternation m a) (Accepts m next) p e)
        (Then (MatchesAlternation m (branch b a)) (Accepts m next) p) s
        (match_alternation call (branch b a) p next s)
        (λ e x. elim x [ inl (r, y, z) ↦ (r, inl y, z) | inr (r, y, z) ↦ (r, inr y, z) ])
        (λ e (r, x, z). elim x [ inl y ↦ inl (r, y, z) | inr y ↦ inr (r, y, z) ])
        (or_else-Explores from (Reaches m (at_branch b p next))
          (Then (MatchesAlternation m a) (Accepts m next) p) s (call (at_branch b p next) s)
          (match_alternation call a p next)
          (calls (at_branch b p next) s
            (both_true (is_regular_branch b) (is_regular_continuation next)
              (both (is_regular_branch b) (is_regular a) plain).0 after)
            few)
          (λ s' l.
            match_alternation-Explores a p next s'
              (both (is_regular_branch b) (is_regular a) plain).1 after (omega (arith, l, few))))

  -- the ends after so many repetitions, one count or another
  Given : Branch → ℕ → ℕ → Continuation → ℕ → ℕ → ℕ → Type 0
  Given rest position width next least most e =
      (n : ℕ) × (least ≤ n) × (n ≤ most) × Reaches m (at_branch rest (position + n * width) next) e

  give_back-Explores :
      (rest : Branch) (position width : ℕ) (next : Continuation) (least extra : ℕ) (s : State)
      → is_regular_branch rest ≡ true
      → is_regular_continuation next ≡ true
      → s.budget ≤ fuel
      → Explores from
          (Given rest position width next least (least + extra))
          s
          (give_back call rest position width next least extra s)
  unfolding give_back Given
  give_back-Explores rest position width next least zero s plain after few =
      Explores-ends from (Reaches m (at_branch rest (position + least * width) next))
        (Given rest position width next least (least + zero)) s
        (give_back call rest position width next least zero s)
        (λ e x. (least, omega arith, omega arith, x))
        (λ e (n, a, b, x).
          let same : n ≡ least = omega (arith, a, b) in
          subst (λ (k : ℕ). Reaches m (at_branch rest (position + k * width) next) e) same x)
        (calls (at_branch rest (position + least * width) next) s
          (both_true (is_regular_branch rest) (is_regular_continuation next) plain after) few)
  give_back-Explores rest position width next least (suc extra) s plain after few =
      Explores-ends from
        (λ e.
          Reaches m (at_branch rest (position + (least + suc extra) * width) next) e
          ⊎ Given rest position width next least (least + extra) e)
        (Given rest position width next least (least + suc extra)) s
        (give_back call rest position width next least (suc extra) s)
        (λ e x. elim x [
          | inl y ↦ (least + suc extra, omega arith, omega arith, y)
          | inr (n, a, b, y) ↦ (n, a, omega (arith, b), y)
        ])
        (λ e (n, a, b, x). elim (Bool-cases (n == least + suc extra)) [
          | inl last ↦ inl (
              subst (λ (k : ℕ). Reaches m (at_branch rest (position + k * width) next) e)
                (ground (arith, last)) x)
          | inr other ↦ inr (n, a, ground (arith, b, other), x)
        ])
        (or_else-Explores from
          (Reaches m (at_branch rest (position + (least + suc extra) * width) next))
          (Given rest position width next least (least + extra)) s
          (call (at_branch rest (position + (least + suc extra) * width) next) s)
          (give_back call rest position width next least extra)
          (calls (at_branch rest (position + (least + suc extra) * width) next) s
            (both_true (is_regular_branch rest) (is_regular_continuation next) plain after) few)
          (λ s' l.
            give_back-Explores rest position width next least extra s' plain after
              (omega (arith, l, few))))

  repeated-Explores :
      (rest : Branch) (position width : ℕ) (next : Continuation) (minimum taken : ℕ) (s : State)
      → is_regular_branch rest ≡ true
      → is_regular_continuation next ≡ true
      → s.budget ≤ fuel
      → Explores from
          (Given rest position width next minimum taken)
          s
          (repeated call rest position width next minimum taken s)
  unfolding Given
  repeated-Explores rest position width next minimum taken s plain after few =
      elim (Bool-cases (ltb taken minimum)) [
        | inl h ↦ simp (h) (
            nothing-Explores from (Given rest position width next minimum taken) s
              (λ e (n, a, b, _). ground (arith, h, a, b)))
        | inr h ↦
            let all : minimum + (taken - minimum) ≡ taken = ground (arith, h) in
            simp (h) (
              subst
                (λ (k : ℕ).
                  Explores from (Given rest position width next minimum k) s
                    (give_back call rest position width next minimum (taken - minimum) s))
                all
                (give_back-Explores rest position width next minimum (taken - minimum) s plain after
                  few))
      ]

  pub run_character-Explores :
      (atom : Atom) (minimum : ℕ) (maximum : Option ℕ) (rest : Branch) (p : ℕ) (next : Continuation)
      (s : State)
      → is_regular_branch rest ≡ true
      → is_regular_continuation next ≡ true
      → s.budget ≤ fuel
      → Explores from
          (Then (IsRun m atom maximum minimum) (Then (MatchesBranch m rest) (Accepts m next)) p)
          s
          (run_character m call atom minimum maximum rest p next s)
  unfolding Given
  run_character-Explores atom minimum maximum rest p next s plain after few =
      let taken =
        greedy (λ (k : ℕ). character_matches m atom (m.string (p + k)))
          (at_most maximum (m.length - p)) 0 in
      Explores-ends from (Given rest p 1 next minimum taken)
        (Then (IsRun m atom maximum minimum) (Then (MatchesBranch m rest) (Accepts m next)) p) s
        (run_character m call atom minimum maximum rest p next s)
        (λ e (n, a, b, x). (
          p + n,
          (IsRun-greedy m atom maximum minimum p n).0 a b,
          subst (λ (k : ℕ). Then (MatchesBranch m rest) (Accepts m next) k e) (omega arith) x,
        ))
        (λ e (r, run, x).
          let here : r ≡ p + run.0 = run.1 in
          let both =
            (IsRun-greedy m atom maximum minimum p run.0).1
              (subst (λ (k : ℕ). IsRun m atom maximum minimum p k) here run) in
          (
            run.0,
            both.0,
            both.1,
            subst (λ (k : ℕ). Then (MatchesBranch m rest) (Accepts m next) k e)
                (omega (arith, here)) x,
          ))
        (repeated-Explores rest p 1 next minimum taken s plain after few)

  pub run_assertion-Explores :
      (atom : Atom) (rest : Branch) (p : ℕ) (next : Continuation) (s : State)
      → is_regular_branch rest ≡ true
      → is_regular_continuation next ≡ true
      → s.budget ≤ fuel
      → Explores from
          (λ e. (holds m atom p ≡ true) × Then (MatchesBranch m rest) (Accepts m next) p e)
          s
          (run_assertion m call atom rest p next s)
  run_assertion-Explores atom rest p next s plain after few =
      guarded-Explores from (holds m atom p) (Reaches m (at_branch rest p next)) s
        (call (at_branch rest p next) s)
        (λ _.
          calls (at_branch rest p next) s
            (both_true (is_regular_branch rest) (is_regular_continuation next) plain after) few)

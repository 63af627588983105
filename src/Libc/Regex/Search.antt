-- ===== src/Libc/Regex/Search.antt =====
-- user/libc/src/regex.c: a call of the matcher finds the ends that its goal looks for.
use shit_os.Prelude.{
  ℕ, zero, suc, ◌-◌, ◌≤◌, ◌≡◌, sym, inl, inr, refl, arith, true, ◌==◌, Bool-cases,
}
use mathlib.Core.Path.{subst}
use shit_os.Libc.Regex.{finish, piece, Subject}
use shit_os.Libc.Regex.Matcher.{
  State, done, group_loop, Goal, Call, at_branch, at_group, at_continuation, body, search,
}
use shit_os.Libc.Regex.Language.{MatchesBranch, is_regular_branch}
use shit_os.Libc.Regex.Explores.{
  Explores, cut-Explores, Explores-same, Explores-ends, record_match-Explores,
}
use shit_os.Libc.Regex.Reaches.{Accepts, Reaches, is_regular_continuation, is_regular_goal}
use shit_os.Libc.Regex.Steps.{CallsExplore}
use shit_os.Libc.Regex.Groups.{run_group-Explores, close_loop-Explores}
use shit_os.Libc.Regex.Pieces.{match_branch-Explores}

body-Explores :
    (m : Subject) (from fuel : ℕ) (call : Call)
    → CallsExplore m from fuel call
    → (goal : Goal) (s : State) → is_regular_goal goal ≡ true
    → s.budget ≤ fuel
    → Explores from (Reaches m goal) s (body m call goal s)
unfolding MatchesBranch Accepts is_regular_branch is_regular_continuation
body-Explores m from fuel call calls (at_branch finish p next) s plain few =
    Explores-ends from (Accepts m next p) (Reaches m (at_branch finish p next)) s
      (call (at_continuation next p) s) (λ e x. (p, refl, x))
      (λ e (r, same, x). subst (λ (k : ℕ). Accepts m next k e) (sym same) x)
      (calls (at_continuation next p) s plain few)
body-Explores m from fuel call calls (at_branch (piece atom minimum maximum rest) p next) s plain
      few =
    match_branch-Explores m from fuel call calls atom minimum maximum rest p next s plain few
body-Explores m from fuel call calls (at_group alternation index minimum maximum rest p next taken)
      s plain few =
    run_group-Explores m from fuel call calls alternation index minimum maximum rest p next taken s
      plain few
body-Explores m from fuel call calls (at_continuation done p) s plain few =
    record_match-Explores from p s
body-Explores m from fuel call calls
      (at_continuation (group_loop alternation index minimum maximum rest after start taken) p) s
      plain few =
    close_loop-Explores m from fuel call calls alternation index minimum maximum rest p after taken
      s plain few start

pub search-Explores : (m : Subject) (from fuel : ℕ) → CallsExplore m from fuel (search m fuel)
unfolding search
search-Explores m from zero goal s plain few =
    cut-Explores from (Reaches m goal) s (omega (arith, few))
search-Explores m from (suc fuel) goal s plain few = elim (Bool-cases (s.budget == 0)) [
  | inl h ↦ simp (h) (cut-Explores from (Reaches m goal) s (ground (arith, h)))
  | inr h ↦
      let s' : State = record s { budget = s.budget - 1 } in
      simp (h) (
        Explores-same from (Reaches m goal) (Reaches m goal) s s' (body m (search m fuel) goal s')
          (record { found = refl; best_end = refl }) (omega arith)
          (λ b. record { path = b.path; best = b.best }) (λ e x. x) (λ e x. x)
          (body-Explores m from fuel (search m fuel) (search-Explores m from fuel) goal s' plain
            (omega (arith, few))))
]

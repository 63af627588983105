-- ===== src/Libc/Regex/Groups.antt =====
-- user/libc/src/regex.c: `match_group` and `group_loop_run` find the ends that they look for, when the calls
-- that they make do.
use shit_os.Prelude.{
  ℕ, ◌+◌, ◌≤◌, ◌≡◌, ◌≢◌, ◌⊎◌, inl, inr, refl, arith, true, false, not, ◌&&◌, ◌||◌, Option, some,
  ltb, leb, ◌==◌, if◌then◌else◌, both,
}
use mathlib.Core.Path.{subst}
use shit_os.Libc.Regex.{Branch, Alternation, Subject}
use shit_os.Libc.Regex.Matcher.{
  Span, State, Continuation, group_loop, Call, at_branch, at_group, at_continuation,
  match_alternation, allows, put_span, restored, leave_group, run_group, close_loop,
}
use shit_os.Libc.Regex.Language.{
  Iterates, enough, nothing, once_more, MatchesAlternation, MatchesBranch, is_regular,
  is_regular_branch,
}
use shit_os.Libc.Regex.Explores.{
  Explores, Explores-same, Explores-ends, Starts-either, restored-Explores, or_else-Explores,
  guarded-Explores, either-Explores,
}
use shit_os.Libc.Regex.Reaches.{Then, Accepts, Reaches, is_regular_continuation, is_regular_goal}
use shit_os.Libc.Regex.Steps.{CallsExplore, match_alternation-Explores}

-- the iterations of a group from a place, one at a time
module _ (B L : ℕ → ℕ → Type 0) (minimum : ℕ) (maximum : Option ℕ) where
  Again : ℕ → ℕ → ℕ → Type 0
  Again taken p e =
      (allows maximum taken ≡ true)
      × Then B
          (λ r x.
            ((r ≡ p) × L r x) ⊎ ((r ≢ p) × Then (Iterates B minimum maximum (taken + 1)) L r x))
          p e

  first_iteration :
      (taken p q e : ℕ)
      → Iterates B minimum maximum taken p q
      → L q e
      → Again taken p e ⊎ ((leb minimum taken ≡ true) × L p e)
  unfolding Again
  first_iteration taken p q e (enough _ _ a) l = inr (ground (arith, a), l)
  first_iteration taken p q e (nothing _ _ a b) l = inl (a, (p, b, inl (refl, l)))
  first_iteration taken p q e (once_more _ _ r _ a b d i) l = inl (a, (r, b, inr (d, (q, i, l))))

  iterations :
      (taken p e : ℕ)
      → Again taken p e ⊎ ((leb minimum taken ≡ true) × L p e)
      → Then (Iterates B minimum maximum taken) L p e
  unfolding Again
  iterations taken p e (inl (a, (r, b, inl (same, l)))) =
      (p, nothing taken p a (subst (B p) same b), subst (λ (k : ℕ). L k e) same l)
  iterations taken p e (inl (a, (r, b, inr (d, (q, i, l))))) = (q, once_more taken p r q a b d i, l)
  iterations taken p e (inr (a, l)) = (p, enough taken p (ground (arith, a)), l)

module _ (m : Subject) (from fuel : ℕ) (call : Call) (calls : CallsExplore m from fuel call) where
  module _ (alternation : Alternation) (index minimum : ℕ) (maximum : Option ℕ) (rest : Branch)
      (p : ℕ) (next : Continuation) (taken : ℕ) (s : State)
      (plain : is_regular_goal (at_group alternation index minimum maximum rest p next taken)
        ≡ true)
      (few : s.budget ≤ fuel) where
    pub run_group-Explores :
        Explores from
          (Reaches m (at_group alternation index minimum maximum rest p next taken))
          s
          (run_group call alternation index minimum maximum rest p next taken s)
    unfolding Accepts Again is_regular_continuation
    run_group-Explores =
        let parts =
          both (ltb 0 index && is_regular alternation)
            (is_regular_branch rest && is_regular_continuation next) plain in
        let group = both (ltb 0 index) (is_regular alternation) parts.0 in
        let B = MatchesAlternation m alternation in
        let L = Then (MatchesBranch m rest) (Accepts m next) in
        let loop = group_loop alternation index minimum maximum rest next p taken in
        let round = match_alternation call alternation p loop s in
        Explores-ends from
          (λ e. Again B L minimum maximum taken p e ⊎ ((leb minimum taken ≡ true) × L p e))
          (Then (Iterates B minimum maximum taken) L p) s
          (run_group call alternation index minimum maximum rest p next taken s)
          (iterations B L minimum maximum taken p)
          (λ e (q, i, l). first_iteration B L minimum maximum taken p q e i l)
          (or_else-Explores from (Again B L minimum maximum taken p)
            (λ e. (leb minimum taken ≡ true) × L p e) s
            (if allows maximum taken then restored index (s.captures index) round else (false, s))
            (leave_group call minimum rest p next taken)
            (guarded-Explores from (allows maximum taken) (Then B (Accepts m loop) p) s
              (restored index (s.captures index) round)
              (λ _.
                restored-Explores from (Then B (Accepts m loop) p) s index (s.captures index) round
                  (ground (arith, group.0))
                  (match_alternation-Explores m from fuel call calls alternation p loop s group.1
                    plain few)))
            (λ s' l.
              guarded-Explores from (leb minimum taken) (L p) s' (call (at_branch rest p next) s')
                (λ _. calls (at_branch rest p next) s' parts.1 (omega (arith, l, few)))))

    pub close_loop-Explores :
        (start : ℕ)
        → Explores from
            (Reaches m (
              at_continuation
                (group_loop alternation index minimum maximum rest next start taken)
                p))
            s
            (close_loop call alternation index minimum maximum rest next start taken p s)
    unfolding Accepts is_regular_continuation
    close_loop-Explores start =
        let parts =
          both (ltb 0 index && is_regular alternation)
            (is_regular_branch rest && is_regular_continuation next) plain in
        let group = both (ltb 0 index) (is_regular alternation) parts.0 in
        let B = MatchesAlternation m alternation in
        let L = Then (MatchesBranch m rest) (Accepts m next) in
        let M = Then (Iterates B minimum maximum (taken + 1)) L in
        let span : Span = record { start = some start; end = some p } in
        let counts = not (p == start) || (taken == 0) in
        let spans = if counts then put_span index span s.captures else s.captures in
        let s' : State = record s { captures = spans } in
        let out = call (at_branch rest p next) s' in
        let again = call (at_group alternation index minimum maximum rest p next (taken + 1)) s' in
        restored-Explores from
          (Accepts m (group_loop alternation index minimum maximum rest next start taken) p) s index
          (s.captures index) (if p == start then out else again) (ground (arith, group.0))
          (Explores-same from
            (λ e. (((p == start) ≡ true) × L p e) ⊎ (((p == start) ≡ false) × M p e))
            (Accepts m (group_loop alternation index minimum maximum rest next start taken) p) s s'
            (if p == start then out else again) (record { found = refl; best_end = refl })
            (omega arith) (Starts-either from counts s index span (ground (arith, group.0)))
            (λ e x. elim x [
              | inl (h, l) ↦ inl (ground (arith, h), l)
              | inr (h, l) ↦ inr (ground (arith, h), l)
            ])
            (λ e x. elim x [
              | inl (h, l) ↦ inl (ground (arith, h), l)
              | inr (h, l) ↦ inr (ground (arith, h), l)
            ])
            (either-Explores from (p == start) (L p) (M p) s' out again
              (λ _. calls (at_branch rest p next) s' parts.1 few)
              (λ _.
                calls (at_group alternation index minimum maximum rest p next (taken + 1)) s' plain
                  few)))

-- ===== src/Libc/Regex/Textbook.antt =====
-- user/libc/src/regex.c: the language of an expression as the textbook has it, where a repetition is any number
-- of iterations within its bounds, and where it is what the matcher looks for.
use shit_os.Prelude.{
  ℕ, zero, suc, ◌+◌, ◌-◌, ◌≤◌, ◌<◌, ◌≡◌, ◌∙◌, sym, ◌↔◌, ◌⊎◌, inl, inr, refl, arith, Bool, true,
  ◌&&◌, Option, none, some, ltb, leb, ◌==◌, Bool-cases,
}
use mathlib.Core.Path.{subst}
use shit_os.Libc.Regex.{
  Atom, literal, any, set, group, backref, line_start, line_end, word_boundary, not_word_boundary,
  word_start, word_end, Branch, finish, piece, Alternation, no_branch, branch, Subject,
  character_matches, holds,
}
use shit_os.Libc.Regex.Matcher.{allows}
use shit_os.Libc.Regex.Language.{IsRun, Iterates, enough, nothing, once_more}

-- so many iterations, one after another
pub data Repeats (Body : ℕ → ℕ → Type 0) : ℕ → ℕ → ℕ → Type 0 where
  stop : (p : ℕ) → Repeats Body 0 p p
  step : (n p r q : ℕ) → Body p r → Repeats Body n r q → Repeats Body (suc n) p q

abbrev pub within : Option ℕ → ℕ → Bool
within none n = true
within (some maximum) n = leb n maximum

abbrev pub Times : (ℕ → ℕ → Type 0) → ℕ → Option ℕ → ℕ → ℕ → Type 0
Times Body minimum maximum p q =
    (n : ℕ) × (minimum ≤ n) × (within maximum n ≡ true) × Repeats Body n p q

abbrev pub OneCharacter : Subject → Atom → ℕ → ℕ → Type 0
OneCharacter m atom p q =
    (q ≡ p + 1) × (p < m.length) × (character_matches m atom (m.string p) ≡ true)

abbrev pub Asserts : Subject → Atom → ℕ → ℕ → Type 0
Asserts m atom p q = (holds m atom p ≡ true) × (p ≡ q)

unfoldable mutual
  pub InAlternation : Subject → Alternation → ℕ → ℕ → Type 0
  InAlternation m no_branch p q = ⊥
  InAlternation m (branch b rest) p q = InBranch m b p q ⊎ InAlternation m rest p q

  pub InBranch : Subject → Branch → ℕ → ℕ → Type 0
  InBranch m finish p q = p ≡ q
  InBranch m (piece atom minimum maximum rest) p q =
      (r : ℕ) × InPiece m atom minimum maximum p r × InBranch m rest r q

  pub InPiece : Subject → Atom → ℕ → Option ℕ → ℕ → ℕ → Type 0
  InPiece m (literal c) minimum maximum p q = Times (OneCharacter m (literal c)) minimum maximum p q
  InPiece m any minimum maximum p q = Times (OneCharacter m any) minimum maximum p q
  InPiece m (set has) minimum maximum p q = Times (OneCharacter m (set has)) minimum maximum p q
  InPiece m (group alternation index) minimum maximum p q =
      Times (InAlternation m alternation) minimum maximum p q
  InPiece m (backref n) minimum maximum p q = ⊥
  InPiece m line_start minimum maximum p q = Times (Asserts m line_start) minimum maximum p q
  InPiece m line_end minimum maximum p q = Times (Asserts m line_end) minimum maximum p q
  InPiece m word_boundary minimum maximum p q = Times (Asserts m word_boundary) minimum maximum p q
  InPiece m not_word_boundary minimum maximum p q =
      Times (Asserts m not_word_boundary) minimum maximum p q
  InPiece m word_start minimum maximum p q = Times (Asserts m word_start) minimum maximum p q
  InPiece m word_end minimum maximum p q = Times (Asserts m word_end) minimum maximum p q

-- are the groups repeated with `*`, `+` or `?` or not at all? Then the least number is at most one. The
-- bounds of groups and assertions are in order, as the compiler has them.
abbrev pub is_simple_repeat : ℕ → Option ℕ → Bool
is_simple_repeat minimum maximum = leb minimum 1 && within maximum minimum

unfoldable mutual
  pub is_simple : Alternation → Bool
  is_simple no_branch = true
  is_simple (branch b rest) = is_simple_branch b && is_simple rest

  pub is_simple_branch : Branch → Bool
  is_simple_branch finish = true
  is_simple_branch (piece atom minimum maximum rest) =
      is_simple_piece atom minimum maximum && is_simple_branch rest

  pub is_simple_piece : Atom → ℕ → Option ℕ → Bool
  is_simple_piece (group alternation index) minimum maximum =
      is_simple_repeat minimum maximum && is_simple alternation
  is_simple_piece (literal c) minimum maximum = true
  is_simple_piece any minimum maximum = true
  is_simple_piece (set has) minimum maximum = true
  is_simple_piece (backref n) minimum maximum = true
  is_simple_piece atom minimum maximum = within maximum minimum

-- is every assertion asked for at least once?
unfoldable mutual
  pub asks_assertions : Alternation → Bool
  asks_assertions no_branch = true
  asks_assertions (branch b rest) = asks_assertions_branch b && asks_assertions rest

  pub asks_assertions_branch : Branch → Bool
  asks_assertions_branch finish = true
  asks_assertions_branch (piece atom minimum maximum rest) =
      asks_assertions_piece atom minimum && asks_assertions_branch rest

  pub asks_assertions_piece : Atom → ℕ → Bool
  asks_assertions_piece (literal c) minimum = true
  asks_assertions_piece any minimum = true
  asks_assertions_piece (set has) minimum = true
  asks_assertions_piece (group alternation index) minimum = asks_assertions alternation
  asks_assertions_piece atom minimum = ltb 0 minimum

allows-within :
    (maximum : Option ℕ) (n k : ℕ) → k ≡ n + 1 → allows maximum n ≡ true → within maximum k ≡ true
allows-within none n k e h = refl
allows-within (some maximum) n k e h = ground (arith, e, h)

within-allows :
    (maximum : Option ℕ) (n k : ℕ) → k < n → within maximum n ≡ true → allows maximum k ≡ true
within-allows none n k l h = refl
within-allows (some maximum) n k l h = ground (arith, l, h)

pub within-below :
    (maximum : Option ℕ) (n k : ℕ) → k ≤ n → within maximum n ≡ true → within maximum k ≡ true
within-below none n k l h = refl
within-below (some maximum) n k l h = ground (arith, l, h)

all-within :
    (maximum : Option ℕ) (n : ℕ)
    → ((k : ℕ) → k < n → allows maximum k ≡ true)
    → within maximum n ≡ true
all-within none zero f = refl
all-within (some maximum) zero f = ground arith
all-within maximum (suc n) f = allows-within maximum n (suc n) (omega arith) (f n (omega arith))

stopped : (Body : ℕ → ℕ → Type 0) (n p q : ℕ) → n ≡ 0 → Repeats Body n p q → p ≡ q
stopped Body n p q h (stop _) = refl
stopped Body n p q h (step k _ r _ x y) = absurd (omega (arith, h))

-- characters one by one are a run of them
module _ (m : Subject) (atom : Atom) where
  Run-Repeats :
      (n p q : ℕ)
      → q ≡ p + n
      → ((k : ℕ)
          → k < n
          → (p + k < m.length) × (character_matches m atom (m.string (p + k)) ≡ true))
      → Repeats (OneCharacter m atom) n p q
  Run-Repeats zero p q e f = subst (Repeats (OneCharacter m atom) 0 p) (omega (arith, e)) (stop p)
  Run-Repeats (suc n) p q e f =
      let here : (p < m.length) × (character_matches m atom (m.string p) ≡ true) =
        subst (λ (k : ℕ). (k < m.length) × (character_matches m atom (m.string k) ≡ true))
          (omega arith) (f 0 (omega arith)) in
      let more : (k : ℕ)
          → k < n
          → (p + 1 + k < m.length) × (character_matches m atom (m.string (p + 1 + k)) ≡ true) =
        λ k l.
          subst (λ (j : ℕ). (j < m.length) × (character_matches m atom (m.string j) ≡ true))
            (omega arith) (f (suc k) (omega (arith, l))) in
      step n p (p + 1) q (refl, here.0, here.1) (Run-Repeats n (p + 1) q (omega (arith, e)) more)

  Repeats-run :
      (n p q : ℕ)
      → Repeats (OneCharacter m atom) n p q
      → (q ≡ p + n)
        × ((k : ℕ)
            → k < n
            → (p + k < m.length) × (character_matches m atom (m.string (p + k)) ≡ true))
  Repeats-run n p q (stop _) = (omega arith, λ k l. absurd (omega (arith, l)))
  Repeats-run n p q (step n' _ r _ (e, a, b) y) =
      let x = Repeats-run n' r q y in
      (
        omega (arith, e, x.0),
        λ k l. elim (Bool-cases (k == 0)) [
          | inl h ↦
              subst (λ (j : ℕ). (j < m.length) × (character_matches m atom (m.string j) ≡ true))
                (ground (arith, h)) (a, b)
          | inr h ↦
              subst (λ (j : ℕ). (j < m.length) × (character_matches m atom (m.string j) ≡ true))
                (ground (arith, e, h)) (x.1 (k - 1) (ground (arith, l, h)))
        ],
      )

  pub IsRun-Times :
      (minimum : ℕ) (maximum : Option ℕ) (p q : ℕ)
      → IsRun m atom maximum minimum p q ↔ Times (OneCharacter m atom) minimum maximum p q
  IsRun-Times minimum maximum p q = (
    λ (n, e, a, f). (
      n,
      a,
      all-within maximum n (λ k l. (f k l).0),
      Run-Repeats n p q e (λ k l. ((f k l).1, (f k l).2)),
    ),
    λ (n, a, b, y).
        let x = Repeats-run n p q y in
        (n, x.0, a, λ k l. (within-allows maximum n k l b, (x.1 k l).0, (x.1 k l).1)),
  )

-- iterations, with those that match nothing left out
module _ (Body : ℕ → ℕ → Type 0) (minimum : ℕ) (maximum : Option ℕ)
    (simple : is_simple_repeat minimum maximum ≡ true) where
  pub Iterates-Repeats :
      (taken p q : ℕ)
      → Iterates Body minimum maximum taken p q
      → within maximum taken ≡ true
      → (n : ℕ) × (minimum ≤ taken + n) × (within maximum (taken + n) ≡ true) × Repeats Body n p q
  Iterates-Repeats taken p q (enough _ _ a) fit =
      (0, omega (arith, a), subst (λ (k : ℕ). within maximum k ≡ true) (omega arith) fit, stop p)
  Iterates-Repeats taken p q (nothing _ _ a b) fit = (
    1,
    ground (arith, simple),
    allows-within maximum taken (taken + 1) refl a,
    step 0 p p p b (stop p),
  )
  Iterates-Repeats taken p q (once_more _ _ r _ a b d i) fit =
      let x = Iterates-Repeats (taken + 1) r q i (allows-within maximum taken (taken + 1) refl a) in
      (
        suc x.0,
        omega (arith, x.1),
        subst (λ (k : ℕ). within maximum k ≡ true) (omega arith) x.2,
        step x.0 p r q b x.3,
      )

  pub Repeats-Iterates :
      (n taken p q : ℕ)
      → minimum ≤ taken + n
      → within maximum (taken + n) ≡ true
      → Repeats Body n p q
      → Iterates Body minimum maximum taken p q
  Repeats-Iterates n taken p q a b (stop _) = enough taken p (omega (arith, a))
  Repeats-Iterates n taken p q a b (step k _ r _ x y) =
      let can = within-allows maximum (taken + suc k) taken (omega arith) b in
      elim (Bool-cases (r == p)) [
        | inl h ↦
            let same : r ≡ p = ground (arith, h) in
            elim (Bool-cases (leb minimum (taken + k))) [
              | inl l ↦
                  subst (λ (j : ℕ). Iterates Body minimum maximum taken j q) same
                    (Repeats-Iterates k taken r q (ground (arith, l))
                      (within-below maximum (taken + suc k) (taken + k) (omega arith) b) y)
              | inr l ↦
                  subst (Iterates Body minimum maximum taken p)
                    (sym same ∙ stopped Body k r q (ground (arith, l, simple)) y)
                    (nothing taken p can (subst (Body p) same x))
            ]
        | inr h ↦ once_more taken p r q can x (ground (arith, h)) (
            Repeats-Iterates k (taken + 1) r q (omega (arith, a))
              (subst (λ (j : ℕ). within maximum j ≡ true) (omega arith) b) y)
      ]

-- ===== src/Libc/Regex/Greedy.antt =====
-- user/libc/src/regex.c: the loop of `match_branch` that counts the repetitions of one character.
use shit_os.Prelude.{
  ℕ, zero, suc, ◌+◌, ◌-◌, ◌≤◌, ◌<◌, ◌≡◌, inl, inr, refl, arith, Bool, true, false, Option, none,
  some, ltb, ◌==◌, Bool-cases,
}
use shit_os.Libc.Regex.{Atom, Subject, character_matches}
use shit_os.Libc.Regex.Matcher.{greedy, at_most, allows}
use shit_os.Libc.Regex.Language.{IsRun}

-- a greedy run: all of it passes the test, and what follows does not
pub greedy_lem :
    (test : ℕ → Bool) (room taken : ℕ)
    → (taken ≤ greedy test room taken)
      × (greedy test room taken ≤ taken + room)
      × ((k : ℕ) → taken ≤ k → k < greedy test room taken → test k ≡ true)
      × (greedy test room taken < taken + room → test (greedy test room taken) ≡ false)
unfolding greedy
greedy_lem test zero taken = (
  omega arith,
  omega arith,
  λ k a b. absurd (omega (arith, a, b)),
  λ a. absurd (omega (arith, a)),
)
greedy_lem test (suc room) taken =
    let rest = greedy_lem test room (taken + 1) in
    elim (Bool-cases (test taken)) [
      | inl h ↦ simp (h) (
        omega (arith, rest.0),
        omega (arith, rest.1),
        λ k a b. elim (Bool-cases (k == taken)) [
          | inl e ↦ ground (arith, e, h)
          | inr e ↦ rest.2 k (ground (arith, e, a)) b
        ],
        λ a. rest.3 (omega (arith, a)),
      )
      | inr h ↦
          simp (h) (omega arith, omega arith, λ k a b. absurd (omega (arith, a, b)), λ _. refl)
    ]

-- what the room of a run is
at_most_lem :
    (maximum : Option ℕ) (room k : ℕ)
    → (k < at_most maximum room → (allows maximum k ≡ true) × (k < room))
      × (allows maximum k ≡ true → k < room → k < at_most maximum room)
at_most_lem none room k = (λ a. (refl, a), λ _ a. a)
at_most_lem (some maximum) room k =
    (λ a. (ground (arith, a), ground (arith, a)), λ a b. ground (arith, a, b))

-- so many characters in a row are those that the greedy run reaches
pub IsRun-greedy :
    (m : Subject) (atom : Atom) (maximum : Option ℕ) (minimum p n : ℕ)
    → let taken =
        greedy
          (λ k. character_matches m atom (m.string (p + k)))
          (at_most maximum (m.length - p))
          0 in
      (minimum ≤ n → n ≤ taken → IsRun m atom maximum minimum p (p + n))
      × (IsRun m atom maximum minimum p (p + n) → (minimum ≤ n) × (n ≤ taken))
IsRun-greedy m atom maximum minimum p n =
    let test : ℕ → Bool = λ k. character_matches m atom (m.string (p + k)) in
    let room = at_most maximum (m.length - p) in
    let g = greedy_lem test room 0 in
    (
      λ a b. (
        n,
        refl,
        a,
        λ k c.
            let d : k < room = omega (arith, c, b, g.1) in
            let w = at_most_lem maximum (m.length - p) k in
            ((w.0 d).0, ground (arith, (w.0 d).1), g.2 k (omega arith) (omega (arith, c, b))),
      ),
      λ (n', e, a, f). (
        omega (arith, e, a),
        elim (Bool-cases (ltb (greedy test room 0) n)) [
          | inl c ↦
              let x = f (greedy test room 0) (ground (arith, c, e)) in
              let w = at_most_lem maximum (m.length - p) (greedy test room 0) in
              let d : greedy test room 0 < room = w.1 x.0 (ground (arith, x.1)) in
              absurd (ground (arith, x.2, g.3 (omega (arith, d))))
          | inr c ↦ ground (arith, c)
        ],
      ),
    )

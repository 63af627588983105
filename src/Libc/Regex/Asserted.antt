-- ===== src/Libc/Regex/Asserted.antt =====
-- user/libc/src/regex.c: an assertion that is repeated.
use shit_os.Prelude.{ℕ, zero, suc, ◌<◌, ◌≡◌, ◌∙◌, refl, arith, true, Option, ltb}
use mathlib.Core.Path.{subst}
use shit_os.Libc.Regex.{Atom, Subject, holds}
use shit_os.Libc.Regex.Textbook.{Repeats, stop, step, Times, Asserts, within}

-- an assertion holds as often as it is asked to
Asserts-Times :
    (m : Subject) (atom : Atom) (n p q : ℕ)
    → 0 < n
    → Asserts m atom p q
    → Repeats (Asserts m atom) n p q
Asserts-Times m atom zero p q some_times x = absurd (omega (arith, some_times))
Asserts-Times m atom (suc zero) p q some_times x = step 0 p q q x (stop q)
Asserts-Times m atom (suc (suc n)) p q some_times (h, same) =
    step (suc n) p p q (h, refl) (Asserts-Times m atom (suc n) p q (omega arith) (h, same))

pub Asserts-InTimes :
    (m : Subject) (atom : Atom) (minimum : ℕ) (maximum : Option ℕ) (p q : ℕ)
    → within maximum minimum ≡ true
    → Asserts m atom p q
    → Times (Asserts m atom) minimum maximum p q
Asserts-InTimes m atom zero maximum p q fits (h, same) =
    (0, omega arith, fits, subst (Repeats (Asserts m atom) 0 p) same (stop p))
Asserts-InTimes m atom (suc n) maximum p q fits x =
    (suc n, omega arith, fits, Asserts-Times m atom (suc n) p q (omega arith) x)

Repeats-Asserts : (m : Subject) (atom : Atom) (n p q : ℕ) → Repeats (Asserts m atom) n p q → p ≡ q
Repeats-Asserts m atom n p q (stop _) = refl
Repeats-Asserts m atom n p q (step k _ r _ (h, same) y) = same ∙ Repeats-Asserts m atom k r q y

Repeats-first :
    (m : Subject) (atom : Atom) (n p q : ℕ)
    → 0 < n
    → Repeats (Asserts m atom) n p q
    → holds m atom p ≡ true
Repeats-first m atom n p q some_times (stop _) = absurd (omega (arith, some_times))
Repeats-first m atom n p q some_times (step k _ r _ (h, same) y) = h

pub Times-Asserts :
    (m : Subject) (atom : Atom) (minimum : ℕ) (maximum : Option ℕ) (p q : ℕ)
    → ltb 0 minimum ≡ true
    → Times (Asserts m atom) minimum maximum p q
    → Asserts m atom p q
Times-Asserts m atom minimum maximum p q asked (n, a, b, y) =
    (Repeats-first m atom n p q (ground (arith, asked, a)) y, Repeats-Asserts m atom n p q y)

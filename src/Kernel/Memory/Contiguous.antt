-- ===== src/Kernel/Memory/Contiguous.antt =====
-- kernel/mm/physical.cpp: runs of pages, taken and given back.
use shit_os.Prelude.{
  ℕ, zero, suc, ◌+◌, ◌-◌, ◌≤◌, ◌<◌, ◌≡◌, refl, arith, Bool, true, false, Option, none, some, leb,
  ◌==◌, if◌then◌else◌, Bool-cases, inl, inr,
}
use shit_os.Kernel.Memory.Physical.{Pages, find_run, run_taken, allocate_page, allocate_contiguous}
use shit_os.Kernel.Memory.Count.{IsValid, Marked, mark_used-Marked}
use shit_os.Kernel.Memory.Allocate.{Answered, allocate_page-Answered, allocate_page-IsValid}

abbrev pub AllFree : ℕ → ℕ → (ℕ → Bool) → Type 0
AllFree from to used = (j : ℕ) → from ≤ j → j < to → used j ≡ false

-- a free run of so many pages from a place, before an end
abbrev pub IsRun : ℕ → ℕ → ℕ → (ℕ → Bool) → Option ℕ → Type 0
IsRun count from to used none = (s : ℕ) → from ≤ s → s + count ≤ to → ¬ AllFree s (s + count) used
IsRun count from to used (some s) = (s + count ≤ to) × AllFree s (s + count) used

-- the run so far, just before a page
record Running (index start length : ℕ) (used : ℕ → Bool) : Type 0 where
  fits : length ≤ index
  place : (length == 0) ≡ false → start + length ≡ index
  clear : AllFree (index - length) index used

IsRun-moved :
    (count from from' to to' : ℕ) (used : ℕ → Bool) (found : Option ℕ)
    → from ≤ from'
    → to' ≡ to
    → IsRun count from to used found
    → IsRun count from' to' used found
IsRun-moved count from from' to to' used none a e h = λ s b c. h s (omega arith) (omega arith)
IsRun-moved count from from' to to' used (some s) a e h = (omega (arith, h.0), h.1)

IsRun-past_used :
    (count from index to : ℕ) (used : ℕ → Bool) (found : Option ℕ)
    → used index ≡ true
    → index < from + count
    → IsRun count (index + 1) to used found
    → IsRun count from to used found
IsRun-past_used count from index to used none u a h = λ s b c f. elim (Bool-cases (leb s index)) [
  | inl l ↦ ground (arith, f index)
  | inr l ↦ h s (ground arith) c f
]
IsRun-past_used count from index to used (some s) u a h = h

Running-grown :
    (index start length : ℕ) (used : ℕ → Bool)
    → used index ≡ false
    → Running index start length used
    → Running (index + 1) (if length == 0 then index else start) (length + 1) used
Running-grown index start length used u r = record {
  fits = omega (arith, r.fits);
  place = λ e. ground (arith, r.place);
  clear = λ j a b. elim (Bool-cases (j == index)) [
    | inl e ↦ ground arith
    | inr e ↦ ground (arith, r.clear j)
  ];
}

Running-complete :
    (count index start length : ℕ) (used : ℕ → Bool)
    → (length == count) ≡ true
    → (length == 0) ≡ false
    → Running index start length used
    → (start + count ≤ index) × AllFree start (start + count) used
Running-complete count index start length used e n r =
    let meet = r.place n in (ground arith, λ j a b. r.clear j (ground arith) (ground arith))

find_run-IsRun :
    (count rounds index start length : ℕ) (p : Pages)
    → length < count
    → Running index start length p.used
    → IsRun count
        (index - length)
        (index + rounds)
        p.used
        (find_run count rounds index start length p)
unfolding find_run
find_run-IsRun count zero index start length p l r = λ s a b f. ground (arith, r.fits)
find_run-IsRun count (suc rounds) index start length p l r = elim (Bool-cases (p.used index)) [
  | inl u ↦ rw (u) (
      IsRun-past_used count (index - length) index (index + suc rounds) p.used
        (find_run count rounds (index + 1) start 0 p) u (ground arith)
        (IsRun-moved count (index + 1 - 0) (index + 1) (index + 1 + rounds) (index + suc rounds)
          p.used (find_run count rounds (index + 1) start 0 p) (omega arith) (omega arith)
          (find_run-IsRun count rounds (index + 1) start 0 p (omega arith) record {
            fits = omega arith;
            place = λ e. ground arith;
            clear = λ j a b. ground arith;
          })))
  | inr u ↦
      let first = if length == 0 then index else start in
      let run : Running (index + 1) first (length + 1) p.used =
        Running-grown index start length p.used u r in
      elim (Bool-cases (length + 1 == count)) [
        | inl e ↦
            let done =
              Running-complete count (index + 1) first (length + 1) p.used e (ground arith) run in
            rw (u, e) (omega (arith, done.0), done.1)
        | inr e ↦
            rw (u, e)
              (IsRun-moved count (index + 1 - (length + 1)) (index - length) (index + 1 + rounds)
                (index + suc rounds) p.used (find_run count rounds (index + 1) first (length + 1) p)
                (omega arith) (omega arith)
                (find_run-IsRun count rounds (index + 1) first (length + 1) p (ground arith) run))
      ]
]

-- What `allocate_contiguous` leaves: its run was free and is taken, or there is no free run.
abbrev pub Reserved : ℕ → Pages → Option ℕ × Pages → Type 0
Reserved count p (none, p') = (p' ≡ p) × IsRun count 0 p.total p.used none
Reserved count p (some s, p') =
    (s + count ≤ p.total) × AllFree s (s + count) p.used × Marked true s count p p'

run_taken-Reserved :
    (count : ℕ) (p : Pages) (found : Option ℕ)
    → IsValid p
    → IsRun count 0 p.total p.used found
    → Reserved count p (run_taken count p found)
run_taken-Reserved count p none v h = (refl, h)
run_taken-Reserved count p (some s) v h = (h.0, h.1, mark_used-Marked count s p v)

page-Reserved : (p : Pages) (r : Option ℕ × Pages) → Answered p r → IsValid r.1 → Reserved 1 p r
page-Reserved p (none, p') a v = (a.0, λ s b c f. ground (arith, f s, a.1 s))
page-Reserved p (some i, p') a v = (
  omega (arith, a.0),
  λ j b c. ground (arith, a.1),
  record { valid = v; total = a.2; bits = λ j. rw (a.3) (ground (arith, a.0)) },
)

-- For a count that is not 0, on a valid allocator, `allocate_contiguous` fails only when no run of free
-- pages of that length is left, and then changes nothing; otherwise the run it answers was free, lies
-- among the pages there are, and exactly its pages are taken.
pub allocate_contiguous-Reserved :
    (count : ℕ) (p : Pages) → 0 < count → IsValid p → Reserved count p (allocate_contiguous count p)
unfolding allocate_contiguous
allocate_contiguous-Reserved count p h v =
    let answer = allocate_page-Answered p in
    let one : Reserved 1 p (allocate_page p) =
      page-Reserved p (allocate_page p) answer (allocate_page-IsValid p v) in
    let run : IsRun count 0 p.total p.used (find_run count p.total 0 0 0 p) =
      IsRun-moved count (0 - 0) 0 (0 + p.total) p.total p.used (find_run count p.total 0 0 0 p)
        (omega arith) (omega arith)
        (find_run-IsRun count p.total 0 0 0 p h record {
          fits = omega arith;
          place = λ e. ground arith;
          clear = λ j a b. ground arith;
        }) in
    let some_page : (count == 0) ≡ false = ground arith in
    elim (Bool-cases (count == 1)) [
      | inl e ↦ let same : count ≡ 1 = ground arith in rw (some_page, e) (rw (same) one)
      | inr e ↦
          rw (some_page, e) (run_taken-Reserved count p (find_run count p.total 0 0 0 p) v run)
    ]

-- ===== src/Kernel/Heap/Copy.antt =====
-- kernel/lib/string.cpp: memcpy and memset.
use shit_os.Prelude.{
  ℕ, zero, suc, ◌+◌, ◌-◌, ◌*◌, ◌/◌, ◌%◌, ◌≤◌, ◌<◌, ◌≡◌, ◌∙◌, ◌⊎◌, inl, inr, refl, sym, ap, arith,
  true, false, ◌&&◌, ltb, leb, if◌then◌else◌, Bool-cases,
}
use mathlib.Core.Path.{subst}

abbrev pub Memory : Type 0
Memory = ℕ → ℕ

-- so many bytes, all read before they are written
abbrev pub copy_unit : ℕ → ℕ → ℕ → Memory → Memory
copy_unit width d s m x = if leb d x && ltb x (d + width) then m (s + (x - d)) else m x

unfoldable pub copy_words : ℕ → ℕ → ℕ → Memory → Memory
copy_words zero d s m = m
copy_words (suc words) d s m = copy_words words (d + 8) (s + 8) (copy_unit 8 d s m)

unfoldable pub copy_bytes : ℕ → ℕ → ℕ → Memory → Memory
copy_bytes zero d s m = m
copy_bytes (suc bytes) d s m = copy_bytes bytes (d + 1) (s + 1) (copy_unit 1 d s m)

unfoldable pub memcpy : ℕ → ℕ → ℕ → Memory → Memory
memcpy d s n m = copy_bytes (n % 8) (d + n / 8 * 8) (s + n / 8 * 8) (copy_words (n / 8) d s m)

-- what a copy leaves
pub record Copied (n d s : ℕ) (m m' : Memory) : Type 0 where
  pub inside : (i : ℕ) → i < n → m' (d + i) ≡ m (s + i)
  pub outside : (x : ℕ) → (x < d) ⊎ (d + n ≤ x) → m' x ≡ m x

abbrev pub AreApart : ℕ → ℕ → ℕ → Type 0
AreApart n d s = (d + n ≤ s) ⊎ (s + n ≤ d)

copy_unit-Copied : (width d s : ℕ) (m : Memory) → Copied width d s m (copy_unit width d s m)
copy_unit-Copied width d s m = record {
  inside = λ i l.
      let t : (leb d (d + i) && ltb (d + i) (d + width)) ≡ true = ground (arith, l) in
      let e : d + i - d ≡ i = omega arith in rw (t, e) refl;
  outside =
      λ x o. let t : (leb d x && ltb x (d + width)) ≡ false = ground (arith, o) in rw (t) refl;
}

then_copied :
    (k n d s : ℕ) (m m' m'' : Memory)
    → AreApart (k + n) d s
    → Copied k d s m m'
    → Copied n (d + k) (s + k) m' m''
    → Copied (k + n) d s m m''
then_copied k n d s m m' m'' apart x y = record {
  inside = λ i l. elim (Bool-cases (ltb i k)) [
    | inl e ↦ y.outside (d + i) (inl (ground (arith, e))) ∙ x.inside i (ground (arith, e))
    | inr e ↦
        let at : d + k + (i - k) ≡ d + i = ground (arith, e) in
        let from : s + k + (i - k) ≡ s + i = ground (arith, e) in
        ap m'' (sym at)
        ∙ (y.inside (i - k) (ground (arith, e, l))
            ∙ (ap m' from ∙ x.outside (s + i) (ground (arith, apart, l, e))))
  ];
  outside = λ x' o. y.outside x' (ground (arith, o)) ∙ x.outside x' (ground (arith, o));
}

copied_none : (d s : ℕ) (m : Memory) → Copied 0 d s m m
copied_none d s m = record { inside = λ i l. absurd (omega (arith, l)); outside = λ x o. refl }

copy_words-Copied :
    (words d s : ℕ) (m : Memory)
    → AreApart (words * 8) d s
    → Copied (words * 8) d s m (copy_words words d s m)
unfolding copy_words
copy_words-Copied zero d s m apart = copied_none d s m
copy_words-Copied (suc words) d s m apart =
    let later =
      copy_words-Copied words (d + 8) (s + 8) (copy_unit 8 d s m) (ground (arith, apart)) in
    subst (λ (n : ℕ). Copied n d s m (copy_words words (d + 8) (s + 8) (copy_unit 8 d s m)))
      (omega arith)
      (then_copied 8 (words * 8) d s m (copy_unit 8 d s m)
        (copy_words words (d + 8) (s + 8) (copy_unit 8 d s m)) (ground (arith, apart))
        (copy_unit-Copied 8 d s m) later)

copy_bytes-Copied :
    (bytes d s : ℕ) (m : Memory)
    → AreApart (bytes * 1) d s
    → Copied (bytes * 1) d s m (copy_bytes bytes d s m)
unfolding copy_bytes
copy_bytes-Copied zero d s m apart = copied_none d s m
copy_bytes-Copied (suc bytes) d s m apart =
    let later =
      copy_bytes-Copied bytes (d + 1) (s + 1) (copy_unit 1 d s m) (ground (arith, apart)) in
    subst (λ (n : ℕ). Copied n d s m (copy_bytes bytes (d + 1) (s + 1) (copy_unit 1 d s m)))
      (omega arith)
      (then_copied 1 (bytes * 1) d s m (copy_unit 1 d s m)
        (copy_bytes bytes (d + 1) (s + 1) (copy_unit 1 d s m)) (ground (arith, apart))
        (copy_unit-Copied 1 d s m) later)

pub memcpy-Copied : (n d s : ℕ) (m : Memory) → AreApart n d s → Copied n d s m (memcpy d s n m)
unfolding memcpy
memcpy-Copied n d s m apart =
    let words = n / 8 * 8 in
    let m' = copy_words (n / 8) d s m in
    let bytes : Copied (n % 8 * 1) (d + words) (s + words) m'
        (copy_bytes (n % 8) (d + words) (s + words) m') =
      copy_bytes-Copied (n % 8) (d + words) (s + words) m' (ground (arith, apart)) in
    subst (λ (k : ℕ). Copied k d s m (copy_bytes (n % 8) (d + words) (s + words) m')) (omega arith)
      (then_copied words (n % 8 * 1) d s m m' (copy_bytes (n % 8) (d + words) (s + words) m')
        (ground (arith, apart)) (copy_words-Copied (n / 8) d s m (ground (arith, apart))) bytes)

abbrev pub set_unit : ℕ → ℕ → ℕ → Memory → Memory
set_unit width d byte m x = if leb d x && ltb x (d + width) then byte else m x

unfoldable pub set_words : ℕ → ℕ → ℕ → Memory → Memory
set_words zero d byte m = m
set_words (suc words) d byte m = set_words words (d + 8) byte (set_unit 8 d byte m)

unfoldable pub set_bytes : ℕ → ℕ → ℕ → Memory → Memory
set_bytes zero d byte m = m
set_bytes (suc bytes) d byte m = set_bytes bytes (d + 1) byte (set_unit 1 d byte m)

-- the eight bytes of the source's pattern are the byte
unfoldable pub memset : ℕ → ℕ → ℕ → Memory → Memory
memset d value n m =
    set_bytes (n % 8) (d + n / 8 * 8) (value % 256) (set_words (n / 8) d (value % 256) m)

set_words_lem :
    (words d byte : ℕ) (m : Memory) (x : ℕ)
    → set_words words d byte m x ≡ set_unit (words * 8) d byte m x
unfolding set_words
set_words_lem zero d byte m x = ground arith
set_words_lem (suc words) d byte m x =
    ground (arith, set_words_lem words (d + 8) byte (set_unit 8 d byte m) x)

set_bytes_lem :
    (bytes d byte : ℕ) (m : Memory) (x : ℕ) → set_bytes bytes d byte m x ≡ set_unit bytes d byte m x
unfolding set_bytes
set_bytes_lem zero d byte m x = ground arith
set_bytes_lem (suc bytes) d byte m x =
    ground (arith, set_bytes_lem bytes (d + 1) byte (set_unit 1 d byte m) x)

pub memset_lem :
    (d value n : ℕ) (m : Memory) (x : ℕ) → memset d value n m x ≡ set_unit n d (value % 256) m x
unfolding memset
memset_lem d value n m x = ground (
  arith,
  set_bytes_lem (n % 8) (d + n / 8 * 8) (value % 256) (set_words (n / 8) d (value % 256) m) x,
  set_words_lem (n / 8) d (value % 256) m x,
)

-- ===== src/Drivers/Ring/Refine.antt =====
-- The rings of modules/ps2kbd/ps2kbd.c and modules/ps2mouse/ps2mouse.c, of `cap` slots, against the
-- queue of `Fifo`, of `cap - 1` items.
use mathlib.Core.Path.{ap₂}
use native.Mathlib.Nat.{mod-eq_of_lt}
use shit_os.Prelude.{
  ℕ, zero, suc, ◌+◌, ◌-◌, ◌%◌, ◌^◌, ◌≤◌, ◌<◌, ◌≡◌, ◌↔◌, ◌∙◌, refl, ap, List, [], ◌∷◌, ◌++◌, true,
  false, arith, ltb, leb, ◌==◌, if◌then◌else◌, length, get_or, set, length-set, get_or-set_self,
  get_or-set_ne, Bool-cases, inl, inr,
}
use shit_os.Drivers.Ring.{Ring, next, is_empty, push, front, advance}
use shit_os.Drivers.Ring.Fifo.{offer}

-- A position that has gone round at most once.
abbrev pub wrap : ℕ → ℕ → ℕ
wrap cap m = if ltb m cap then m else m - cap

abbrev pub IsCapacity : ℕ → Type 0
IsCapacity cap = (2 ≤ cap) × (cap ≤ 2 ^ 31)

pub next-wrap : (cap i : ℕ) → IsCapacity cap → i < cap → next cap i ≡ wrap cap (i + 1)
unfolding next
next-wrap cap i c h = elim (Bool-cases (ltb (i + 1) cap)) [
  | inl in_range ↦ ground (arith, no_overflow, mod-eq_of_lt {n = i + 1} {m = cap})
  | inr last ↦ ground (arith, no_overflow, at_end)
]
  where
    no_overflow : (i + 1) % 2 ^ 32 ≡ i + 1
    no_overflow = omega arith

    at_end : cap % cap ≡ 0
    at_end = grind arith

pub record IsValid {ℓ} {A : Type ℓ} (cap : ℕ) (r : Ring A) : Type ℓ where
  pub storage : length r.slots ≡ cap
  pub head_in : r.head < cap
  pub tail_in : r.tail < cap

module _ {ℓ} {A : Type ℓ} (cap : ℕ) (pad : A) where
  -- the `n` items from position `i` on
  abbrev pub window : List A → ℕ → ℕ → List A
  window xs i zero = []
  window xs i (suc n) = get_or xs i pad ∷ window xs (next cap i) n

  pub length-window : (xs : List A) (i n : ℕ) → length (window xs i n) ≡ n
  length-window xs i zero = refl
  length-window xs i (suc n) = ap suc (length-window xs (next cap i) n)

  -- Storing just past a window extends it by the item stored.
  pub window-set :
      (xs : List A) (x : A) (n i j : ℕ)
      → IsCapacity cap
      → length xs ≡ cap
      → i < cap
      → n < cap
      → j ≡ wrap cap (i + n)
      → window (set xs j x) i (suc n) ≡ window xs i n ++ (x ∷ [])
  window-set xs x zero i j c l hi hn e =
      let e' : j ≡ i = ground arith in rw (e', get_or-set_self xs i x pad (omega arith))
  window-set xs x (suc n) i j c l hi hn e = ap₂ ◌∷◌ (get_or-set_ne xs x pad (ground arith)) (
      window-set xs x n (next cap i) j c l (ground (arith, next-wrap cap i c hi)) (omega arith)
        (ground (arith, next-wrap cap i c hi)))

-- how many items a ring holds
abbrev pub stored {ℓ} : {A : Type ℓ} → ℕ → Ring A → ℕ
stored cap r = if leb r.tail r.head then r.head - r.tail else r.head + cap - r.tail

abbrev pub contents {ℓ} : {A : Type ℓ} → ℕ → A → Ring A → List A
contents cap pad r = window cap pad r.slots r.tail (stored cap r)

module _ {ℓ} {A : Type ℓ} {cap : ℕ} {r : Ring A} (v : IsValid cap r) where
  -- The count is below the capacity, and zero just when the indices meet.
  pub stored_lem : (stored cap r < cap) × ((is_empty r ≡ true) ↔ (stored cap r ≡ 0))
  unfolding is_empty
  stored_lem = ground arith

  -- A producer's and a consumer's step keep the indices inside the array.
  pub push-IsValid : (x : A) → IsCapacity cap → IsValid cap (push cap r x)
  unfolding push
  push-IsValid x c = ground (arith, next-wrap cap r.head c v.head_in, length-set r.slots r.head x)

  pub advance-IsValid : IsCapacity cap → IsValid cap (advance cap r)
  unfolding advance
  advance-IsValid c = ground (arith, next-wrap cap r.tail c v.tail_in)

  -- A producer's step is the queue's `offer`.
  pub contents-push :
      (pad x : A)
      → IsCapacity cap
      → contents cap pad (push cap r x) ≡ offer (cap - 1) (contents cap pad r) x
  unfolding push
  contents-push pad x c = elim (Bool-cases (next cap r.head == r.tail)) [
    | inl full ↦ rw (full, no_room full)
    | inr room ↦
        rw (room, some_room room)
          (ap (window cap pad (set r.slots r.head x) r.tail) (one_more room)
            ∙ window-set cap pad r.slots x (stored cap r) r.tail r.head c v.storage v.tail_in
                stored_lem.0 (ground arith))
  ]
    where
      at_next : next cap r.head ≡ wrap cap (r.head + 1)
      at_next = next-wrap cap r.head c v.head_in

      size : length (contents cap pad r) ≡ stored cap r
      size = length-window cap pad r.slots r.tail (stored cap r)

      no_room :
          (next cap r.head == r.tail) ≡ true → ltb (length (contents cap pad r)) (cap - 1) ≡ false
      no_room full = ground (arith, at_next, size)

      some_room :
          (next cap r.head == r.tail) ≡ false → ltb (length (contents cap pad r)) (cap - 1) ≡ true
      some_room room = ground (arith, at_next, size)

      one_more :
          (next cap r.head == r.tail) ≡ false
          → (if leb r.tail (next cap r.head)
              then next cap r.head - r.tail
              else next cap r.head + cap - r.tail)
            ≡ suc (stored cap r)
      one_more room = ground (arith, at_next)

  -- A consumer's step takes the oldest item.
  pub contents-advance :
      (pad : A)
      → IsCapacity cap
      → is_empty r ≡ false
      → contents cap pad r ≡ front pad r ∷ contents cap pad (advance cap r)
  unfolding advance front is_empty
  contents-advance pad c e = ground (arith, ap (window cap pad r.slots r.tail) one_fewer)
    where
      one_fewer :
          stored cap r
          ≡ suc (
              if leb (next cap r.tail) r.head
              then r.head - next cap r.tail
              else r.head + cap - next cap r.tail)
      one_fewer = ground (arith, next-wrap cap r.tail c v.tail_in)

-- ===== src/Drivers/Ring/Race.antt =====
-- The reader of a ring runs with interrupts on: between its test for emptiness, its load of the
-- slot and its store to `tail`, the interrupt handler may push any number of items.
use shit_os.Prelude.{
  ℕ, ◌-◌, ◌≡◌, ◌∙◌, sym, ap, refl, List, [], ◌∷◌, ◌++◌, false, Bool-cases, inl, inr, arith, ltb,
  length,
}
use shit_os.Drivers.Ring.{Ring, is_empty, push, front, advance}
use shit_os.Drivers.Ring.Fifo.{offer_all}
use shit_os.Drivers.Ring.Refine.{
  IsCapacity, IsValid, stored, contents, push-IsValid, contents-push, contents-advance, stored_lem,
  length-window,
}

-- the interrupts that come in one gap of the reader
unfoldable pub push_all {ℓ} : {A : Type ℓ} → ℕ → Ring A → List A → Ring A
push_all cap r [] = r
push_all cap r (x ∷ xs) = push_all cap (push cap r x) xs

-- An item at the front stays there, whatever arrives.
offer_all-cons {ℓ} :
    {A : Type ℓ} (limit : ℕ) (a : A) (q xs : List A)
    → (rest : List A) × (offer_all limit (a ∷ q) xs ≡ a ∷ rest)
offer_all-cons limit a q [] = (q, refl)
offer_all-cons limit a q (x ∷ xs) = elim (Bool-cases (ltb (length (a ∷ q)) limit)) [
  | inl room ↦ rw room (offer_all-cons limit a (q ++ (x ∷ [])) xs)
  | inr full ↦ rw full (offer_all-cons limit a q xs)
]

head-injective {ℓ} : {A : Type ℓ} {a b : A} {p q : List A} → a ∷ p ≡ b ∷ q → a ≡ b
head-injective e = cc

module _ {ℓ} {A : Type ℓ} {cap : ℕ} (c : IsCapacity cap) (pad : A) where
  pub push_all-IsValid :
      (r : Ring A) (xs : List A) → IsValid cap r → IsValid cap (push_all cap r xs)
  unfolding push_all
  push_all-IsValid r [] v = v
  push_all-IsValid r (x ∷ xs) v = push_all-IsValid (push cap r x) xs (push-IsValid v x c)

  pub contents-push_all :
      (r : Ring A) (xs : List A)
      → IsValid cap r
      → contents cap pad (push_all cap r xs) ≡ offer_all (cap - 1) (contents cap pad r) xs
  unfolding push_all
  contents-push_all r [] v = refl
  contents-push_all r (x ∷ xs) v =
      contents-push_all (push cap r x) xs (push-IsValid v x c)
      ∙ ap (λ q. offer_all (cap - 1) q xs) (contents-push v pad x c)

  -- A ring that holds something is not emptied by arrivals.
  not_empty :
      {r : Ring A} (a : A) (q : List A)
      → IsValid cap r
      → contents cap pad r ≡ a ∷ q
      → is_empty r ≡ false
  not_empty {r} a q v e = elim (Bool-cases (is_empty r)) [
    | inl empty ↦ absurd (
        omega (
          arith,
          ap length e,
          (stored_lem v).1.0 empty,
          length-window cap pad r.slots r.tail (stored cap r),
        ))
    | inr some_left ↦ some_left
  ]

  -- What the reader saw in front is still there after a gap.
  front-push_all :
      (r : Ring A) (xs : List A)
      → IsValid cap r
      → is_empty r ≡ false
      → (is_empty (push_all cap r xs) ≡ false) × (front pad (push_all cap r xs) ≡ front pad r)
  front-push_all r xs v e = (still, head-injective (sym (contents-advance v' pad c still) ∙ kept.1))
    where
      v' : IsValid cap (push_all cap r xs)
      v' = push_all-IsValid r xs v

      kept : (q : List A) × (contents cap pad (push_all cap r xs) ≡ front pad r ∷ q)
      kept =
          let (rest, p) =
            offer_all-cons (cap - 1) (front pad r) (contents cap pad (advance cap r)) xs in
          (
            rest,
            contents-push_all r xs v
                ∙ ap (λ q. offer_all (cap - 1) q xs) (contents-advance v pad c e)
                ∙ p,
          )

      still : is_empty (push_all cap r xs) ≡ false
      still = not_empty (front pad r) kept.0 v' kept.1

  -- The reader tests the ring, `before` arrive, it loads the slot, `between` arrive, and it stores
  -- the new tail: it gets the item that was oldest at the test, and what is left is the queue with
  -- all arrivals offered in order.
  pub advance_race :
      (r : Ring A) (before between : List A)
      → IsValid cap r
      → is_empty r ≡ false
      → let loaded = push_all cap r before in
        front pad loaded ∷ contents cap pad (advance cap (push_all cap loaded between))
        ≡ offer_all (cap - 1) (offer_all (cap - 1) (contents cap pad r) before) between
  advance_race r before between v e =
      ap (λ a. a ∷ contents cap pad (advance cap last))
        (sym (front-push_all loaded between v1 e1).1)
      ∙ sym (contents-advance v2 pad c (front-push_all loaded between v1 e1).0)
      ∙ contents-push_all loaded between v1
      ∙ ap (λ q. offer_all (cap - 1) q between) (contents-push_all r before v)
    where
      loaded : Ring A
      loaded = push_all cap r before

      last : Ring A
      last = push_all cap loaded between

      v1 : IsValid cap loaded
      v1 = push_all-IsValid r before v

      e1 : is_empty loaded ≡ false
      e1 = (front-push_all r before v e).0

      v2 : IsValid cap last
      v2 = push_all-IsValid loaded between v1

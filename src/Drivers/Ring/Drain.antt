-- ===== src/Drivers/Ring/Drain.antt =====
-- The copying loop of the `read` operations of modules/ps2kbd/ps2kbd.c and
-- modules/ps2mouse/ps2mouse.c, against the queue that a ring stands for.
use shit_os.Prelude.{
  ℕ, zero, suc, ◌+◌, ◌*◌, ◌≤◌, ◌<◌, ◌≡◌, refl, ap, [], ◌∷◌, true, false, Bool-cases, inl, inr,
  arith, leb, take, drop,
}
use shit_os.Drivers.Ring.{Ring, is_empty, front, advance, drain}
use shit_os.Drivers.Ring.Refine.{
  IsCapacity, IsValid, contents, window, advance-IsValid, contents-advance, stored_lem,
}

module _ {ℓ} {A : Type ℓ} {cap : ℕ} (c : IsCapacity cap) (pad : A) where
  contents-empty : {r : Ring A} → IsValid cap r → is_empty r ≡ true → contents cap pad r ≡ []
  contents-empty {r} v e = ap (window cap pad r.slots r.tail) ((stored_lem v).1.0 e)

  -- A read that has room for n whole items, and fuel for more than n rounds, takes the n oldest items
  -- of a valid ring, or all of them where it holds fewer, in their order, and leaves the others.
  pub drain_lem :
      (size : ℕ) (n fuel limit written : ℕ) (r : Ring A)
      → IsValid cap r
      → 1 ≤ size
      → n < fuel
      → written + n * size ≤ limit
      → limit < written + suc n * size
      → let (out, r') = drain cap pad size fuel limit written r in
        (out ≡ take n (contents cap pad r))
        × (contents cap pad r' ≡ drop n (contents cap pad r))
        × IsValid cap r'
  unfolding drain
  drain_lem size n zero limit written r v hs hf lo hi = absurd (omega arith)
  drain_lem size zero (suc fuel) limit written r v hs hf lo hi = rw full (refl, refl, v)
    where
      full : leb (written + size) limit ≡ false
      full = ground arith
  drain_lem size (suc n) (suc fuel) limit written r v hs hf lo hi = elim (Bool-cases (is_empty r)) [
    | inl e ↦ rw (fits, e, contents-empty v e) (refl, refl, v)
    | inr e ↦
        rw (fits, e, contents-advance v pad c e)
          (let ih =
              drain_lem size n fuel limit (written + size) (advance cap r) (advance-IsValid v c) hs
                (omega arith) (omega arith) (omega arith) in
            (ap (λ l. front pad r ∷ l) ih.0, ih.1, ih.2))
  ]
    where
      fits : leb (written + size) limit ≡ true
      fits = ground arith

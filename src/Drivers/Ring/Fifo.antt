-- ===== src/Drivers/Ring/Fifo.antt =====
-- What a driver's ring promises: a queue of at most `limit` items that refuses the newest.
use shit_os.Prelude.{ℕ, List, [], ◌∷◌, ◌++◌, Bool, ltb, length, if◌then◌else◌}

module _ {ℓ} {A : Type ℓ} where
  abbrev pub has_room : ℕ → List A → Bool
  has_room limit q = ltb (length q) limit

  -- an arrival
  abbrev pub offer : ℕ → List A → A → List A
  offer limit q x = if has_room limit q then q ++ (x ∷ []) else q

  -- arrivals in order
  abbrev pub offer_all : ℕ → List A → List A → List A
  offer_all limit q [] = q
  offer_all limit q (x ∷ xs) = offer_all limit (offer limit q x) xs

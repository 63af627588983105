-- ===== src/Kernel/Pipe/Contents.antt =====
-- kernel/fs/pipe.cpp: the bytes a pipe holds, and what the copying loops do to them.
use shit_os.Prelude.{
  ℕ, zero, suc, ◌+◌, ◌-◌, ◌%◌, ◌≤◌, ◌<◌, ◌≡◌, ◌∙◌, refl, ap, sym, arith, true, false, List, [], ◌∷◌,
  ◌++◌, length, ltb, ◌==◌,
}
use shit_os.Kernel.Pipe.Buffer.{PipeBuffer, pipe_capacity, used, available, popped, pushed, stored}

-- so many bytes from a place on, around the ring
unfoldable pub items : (ℕ → ℕ) → ℕ → ℕ → List ℕ
items buffer tail zero = []
items buffer tail (suc n) = buffer tail ∷ items buffer ((tail + 1) % pipe_capacity) n

abbrev pub contents : PipeBuffer → List ℕ
contents p = items p.buffer p.tail (used p)

pub record IsValid (p : PipeBuffer) : Type 0 where
  pub head : p.head < pipe_capacity
  pub tail : p.tail < pipe_capacity

pub used_popped :
    (p : PipeBuffer) → IsValid p → ltb 0 (used p) ≡ true → used p ≡ suc (used (popped p))
used_popped p v h = ground (arith, v.head, v.tail)

pub used_pushed :
    (byte : ℕ) (p : PipeBuffer)
    → IsValid p
    → ltb 0 (available p) ≡ true
    → used (pushed byte p) ≡ suc (used p)
used_pushed byte p v h = ground (arith, v.head, v.tail)

pub items-stored :
    (n m tail index byte : ℕ) (buffer : ℕ → ℕ)
    → tail < pipe_capacity
    → n ≤ m
    → m < pipe_capacity
    → index ≡ (tail + m) % pipe_capacity
    → items (stored index byte buffer) tail n ≡ items buffer tail n
unfolding items
items-stored zero m tail index byte buffer h l k e = refl
items-stored (suc n) m tail index byte buffer h l k e =
    let other : (tail == index) ≡ false = ground (arith, e) in
    let rest =
      items-stored n (m - 1) ((tail + 1) % pipe_capacity) index byte buffer (omega arith)
        (omega arith) (omega arith) (e ∙ omega arith) in
    rw (other, rest) refl

pub items-more :
    (n tail index byte : ℕ) (buffer : ℕ → ℕ)
    → tail < pipe_capacity
    → index ≡ (tail + n) % pipe_capacity
    → buffer index ≡ byte
    → items buffer tail (suc n) ≡ items buffer tail n ++ (byte ∷ [])
unfolding items
items-more zero tail index byte buffer h e b =
    let same : index ≡ tail = e ∙ omega arith in ap (λ x. x ∷ []) (ap buffer (sym same) ∙ b)
items-more (suc n) tail index byte buffer h e b =
    ap (λ xs. buffer tail ∷ xs)
      (items-more n ((tail + 1) % pipe_capacity) index byte buffer (omega arith) (e ∙ omega arith)
        b)

pub contents-pushed :
    (byte : ℕ) (p : PipeBuffer)
    → IsValid p
    → ltb 0 (available p) ≡ true
    → contents (pushed byte p) ≡ contents p ++ (byte ∷ [])
contents-pushed byte p v h =
    let place : p.head ≡ (p.tail + used p) % pipe_capacity = ground (arith, v.head, v.tail) in
    let kept =
      items-stored (used p) (used p) p.tail p.head byte p.buffer v.tail (omega arith) (omega arith)
        place in
    let more =
      items-more (used p) p.tail p.head byte (stored p.head byte p.buffer) v.tail place
        (ground arith) in
    rw (used_pushed byte p v h) (more ∙ rw (kept) refl)

pub contents-popped :
    (p : PipeBuffer)
    → IsValid p
    → ltb 0 (used p) ≡ true
    → contents p ≡ p.buffer p.tail ∷ contents (popped p)
unfolding items
contents-popped p v h = rw (used_popped p v h) refl

pub popped-IsValid : (p : PipeBuffer) → IsValid p → IsValid (popped p)
popped-IsValid p v = record { head = v.head; tail = omega arith }

pub pushed-IsValid : (byte : ℕ) (p : PipeBuffer) → IsValid p → IsValid (pushed byte p)
pushed-IsValid byte p v = record { head = omega arith; tail = v.tail }

pub length-items : (n tail : ℕ) (buffer : ℕ → ℕ) → length (items buffer tail n) ≡ n
unfolding items
length-items zero tail buffer = refl
length-items (suc n) tail buffer = ap suc (length-items n ((tail + 1) % pipe_capacity) buffer)

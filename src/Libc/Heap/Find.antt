-- ===== src/Libc/Heap/Find.antt =====
-- user/libc/src/stdlib.c: the search of the size classes, in a heap whose classes list its free blocks.
use shit_os.Prelude.{
  ℕ, zero, suc, ◌+◌, ◌-◌, ◌≤◌, ◌≡◌, refl, sym, arith, true, List, [], ◌∷◌, Option, none, some, leb,
  Bool-cases, Option-cases, inl, inr, ◌⊎◌,
}
use shit_os.Libc.Heap.Blocks.{Block, View, Bins, Heap, bin_index, bin_remove, close, view_at}
use shit_os.Libc.Heap.Alloc.{fitting, first_fit, or_else, search_bins, take_free_block}
use shit_os.Libc.Heap.Chain.{Above, Below, IsChain, IsView, view_at-IsView, view_at-close}
use shit_os.Libc.Heap.Count.{
  total, others, listed, free_here, used_here, listed-bin_remove, total-unwind, used, IsHeld,
}

-- A well-formed heap: its blocks are aligned, lie in order without overlap, no two free ones touch,
-- and each size class lists the free blocks of its sizes, each once.
pub record IsValid (h : Heap) : Type 0 where
  pub blocks : IsChain h.chain
  pub binned : (k a : ℕ) → listed a (h.bins k) ≡ total (free_here k a) h.chain

none-Below :
    (k a : ℕ) (before : List Block) (x : Block)
    → Below before x
    → x.address ≤ a
    → total (free_here k a) before ≡ 0
none-Below k a [] x h le = refl
none-Below k a (y ∷ before) x h le = ground (arith, none-Below k a before y h.2, h.1)

none-Above :
    (k a : ℕ) (x : Block) (after : List Block)
    → Above x after
    → a ≤ x.address
    → total (free_here k a) after ≡ 0
none-Above k a x [] h le = refl
none-Above k a x (y ∷ after) h le = ground (arith, none-Above k a y after h.2, h.1)

-- At an address stands one block at most.
free_total :
    (k a : ℕ) (v : View)
    → IsView v
    → v.block.address ≡ a
    → total (free_here k a) (close v) ≡ free_here k a v.block
free_total k a v i e = omega (
  arith,
  total-unwind (free_here k a) v.before (v.block ∷ v.after),
  none-Below k a v.before v.block i.below (omega (arith, e)),
  none-Above k a v.block v.after i.above (omega (arith, e)),
)

Below-used : (before : List Block) (x : Block) → Below before x → Below before (used x)
Below-used [] x h = tt
Below-used (y ∷ before) x h = (h.0, ground (arith, h.1), h.2)

Above-used_block : (x : Block) (after : List Block) → Above x after → Above (used x) after
Above-used_block x [] h = tt
Above-used_block x (y ∷ after) h = (h.0, ground (arith, h.1), h.2)

-- an entry of a size class, with the block that is there
pub record Entry (h : Heap) (wanted : ℕ) (v : View) : Type 0 where
  pub class : ℕ
  pub address : ℕ
  pub is_listed : 1 ≤ listed address (h.bins class)
  pub seen : view_at address h.chain ≡ some v
  pub fits : wanted ≤ v.block.size

pub Entry-is_free :
    {h : Heap} {wanted : ℕ} {v : View}
    → IsValid h
    → (e : Entry h wanted v) → free_here e.class e.address v.block ≡ 1
Entry-is_free {h} {v = v} i e = ground (
  arith,
  counted,
  free_total e.class e.address v (view_at-IsView e.address h.chain i.blocks e.seen) shown.1,
  i.binned e.class e.address,
  e.is_listed,
)
  where
    shown : (close v ≡ h.chain) × (v.block.address ≡ e.address)
    shown = view_at-close e.address h.chain e.seen

    counted :
        total (free_here e.class e.address) h.chain ≡ total (free_here e.class e.address) (close v)
    counted = rw shown.0 refl

fitting-Entry :
    {h : Heap} (wanted k a : ℕ) (v : View) (o more : Option View)
    → 1 ≤ listed a (h.bins k)
    → view_at a h.chain ≡ o
    → (more ≡ some v → Entry h wanted v)
    → fitting wanted o more ≡ some v
    → Entry h wanted v
fitting-Entry wanted k a v none more l e rest f = rest f
fitting-Entry wanted k a v (some w) more l e rest f = elim (Bool-cases (leb wanted w.block.size)) [
  | inl fit ↦ record {
    class = k;
    address = a;
    is_listed = l;
    seen = ground (arith, f, e, fit);
    fits = ground (arith, f, fit);
  }
  | inr small ↦ rest (rw small at f)
]

first_fit-Entry :
    {h : Heap} (wanted k : ℕ) (v : View) (list : List ℕ)
    → ((a : ℕ) → listed a list ≤ listed a (h.bins k))
    → first_fit wanted h.chain list ≡ some v
    → Entry h wanted v
unfolding first_fit
first_fit-Entry wanted k v [] sub f = cc
first_fit-Entry {h} wanted k v (a ∷ list) sub f =
    fitting-Entry wanted k a v (view_at a h.chain) (first_fit wanted h.chain list)
      (ground (arith, sub a)) refl (first_fit-Entry wanted k v list (λ b. omega (arith, sub b))) f

or_else-cases :
    (o more : Option View) {v : View} → or_else o more ≡ some v → (o ≡ some v) ⊎ (more ≡ some v)
or_else-cases none more e = inr e
or_else-cases (some w) more e = inl e

search_bins-Entry :
    {h : Heap} (rounds index wanted : ℕ) {v : View}
    → search_bins rounds index wanted h ≡ some v
    → Entry h wanted v
unfolding search_bins
search_bins-Entry zero index wanted f = cc
search_bins-Entry {h} (suc rounds) index wanted {v = v} f =
    elim (or_else-cases (first_fit wanted h.chain (h.bins index))
      (search_bins rounds (index + 1) wanted h) f) [
        | inl here ↦ first_fit-Entry wanted index v (h.bins index) (λ a. omega arith) here
        | inr later ↦ search_bins-Entry rounds (index + 1) wanted later
      ]

-- The block that an entry shows, taken off its class.
taken :
    {h : Heap} {wanted : ℕ} {v : View}
    → IsValid h
    → Entry h wanted v
    → IsHeld v (bin_remove v.block h.bins)
      × ((a s : ℕ) → total (used_here a s) h.chain ≡ others (used_here a s) v)
taken {h} {v = v} i e = (
  record {
    below = Below-used v.before v.block seen.below;
    block = seen.block;
    above = Above-used_block v.block v.after seen.above;
    binned = λ k a.
        omega (
          arith,
          i.binned k a,
          parts (free_here k a),
          listed-bin_remove v.block h.bins k a is_free,
        );
  },
  λ a s. ground (arith, parts (used_here a s), is_free),
)
  where
    seen : IsView v
    seen = view_at-IsView e.address h.chain i.blocks e.seen

    is_free : v.block.is_free ≡ true
    is_free = ground (arith, Entry-is_free i e)

    parts : (f : Block → ℕ) → total f h.chain ≡ total f v.before + (f v.block + total f v.after)
    parts f =
        rw (sym (view_at-close e.address h.chain e.seen).0)
          (total-unwind f v.before (v.block ∷ v.after))

-- what a view of a valid heap gives to what trims and hands it out
pub record Ready (h : Heap) (wanted : ℕ) (v : View) (bins : Bins) : Type 0 where
  pub held : IsHeld v bins
  pub fits : wanted ≤ v.block.size
  pub used_same : (a s : ℕ) → total (used_here a s) h.chain ≡ others (used_here a s) v

pub take_free_block-cases :
    {h : Heap} (wanted : ℕ)
    → IsValid h
    → (take_free_block wanted h ≡ none)
      ⊎ ((v : View) × (bins : Bins) × (take_free_block wanted h ≡ some (v, bins))
          × Ready h wanted v bins)
unfolding take_free_block
take_free_block-cases {h} wanted i =
    elim (Option-cases (search_bins (16 - bin_index wanted) (bin_index wanted) wanted h)) [
      | inl none_there ↦ inl (rw (none_there, take_free_block) refl)
      | inr (w, found) ↦
          let e = search_bins-Entry (16 - bin_index wanted) (bin_index wanted) wanted found in
          inr (
            w,
            bin_remove w.block h.bins,
            rw (found, take_free_block) refl,
            record { held = (taken i e).0; fits = e.fits; used_same = (taken i e).1 },
          )
    ]

-- ===== src/Libc/Heap/Freeing.antt =====
-- user/libc/src/stdlib.c: `free` in a well-formed heap.
use shit_os.Prelude.{
  ℕ, ◌+◌, ◌-◌, ◌≤◌, ◌≡◌, ◌∙◌, refl, sym, ap, arith, true, false, ◌&&◌, List, [], ◌∷◌, some, ◌==◌,
  Bool-cases, inl, inr,
}
use shit_os.Libc.Heap.Blocks.{
  Block, View, Bins, Heap, header_size, bin_insert, bin_remove, adjacent, joined, merge_with_next,
  unwind, view_at,
}
use shit_os.Libc.Heap.Alloc.{give_back, release, free}
use shit_os.Libc.Heap.Chain.{
  IsBlock, Above, Below, IsView, close-IsChain, view_at-IsView, view_at-close,
}
use shit_os.Libc.Heap.Count.{
  hit, total, listed, free_here, used_here, listed-bin_insert, listed-bin_remove, total-unwind,
  used, freed, Merged, merge_with_next-Merged,
}
use shit_os.Libc.Heap.Find.{IsValid}

-- what `free` leaves: the block at an address is in use no longer, and nothing else changed for those
-- in use
pub record Freed (h : Heap) (pointer size : ℕ) (h' : Heap) : Type 0 where
  pub valid : IsValid h'
  pub one_less :
      (a s : ℕ)
      → total (used_here a s) h.chain
        ≡ total (used_here a s) h'.chain + hit ((a + header_size == pointer) && (s == size))

-- a chain with a free block put back, and the block on its list
put_back :
    (before : List Block) (b : Block) (after : List Block) (bins : Bins)
    → b.is_free ≡ true
    → Below before b
    → IsBlock b
    → Above b after
    → ((k a : ℕ) → listed a (bins k) ≡ total (free_here k a) before + total (free_here k a) after)
    → IsValid (record { chain = unwind before (b ∷ after); bins = bin_insert b bins })
      × ((a s : ℕ)
          → total (used_here a s) (unwind before (b ∷ after))
            ≡ total (used_here a s) before + total (used_here a s) after)
put_back before b after bins f lo m hi c = (
  record {
    blocks =
        close-IsChain {v = record { before = before; block = b; after = after }}
          record { below = lo; block = m; above = hi };
    binned = λ k a. omega (
      arith,
      c k a,
      listed-bin_insert b bins k a f,
      total-unwind (free_here k a) before (b ∷ after),
    );
  },
  λ a s. ground (arith, total-unwind (used_here a s) before (b ∷ after), f),
)

Below-end :
    (before : List Block) (x y : Block)
    → x.address ≡ y.address
    → x.is_free ≡ y.is_free
    → Below before x
    → Below before y
Below-end [] x y e f h = tt
Below-end (z ∷ before) x y e f h = (h.0, ground (arith, h.1, e, f), h.2)

Above-end :
    (x y : Block) (rest : List Block)
    → x.address + header_size + x.size ≡ y.address + header_size + y.size
    → y.is_free ≡ true
    → Above y rest
    → Above x rest
Above-end x y [] e f h = tt
Above-end x y (z ∷ rest) e f h = (h.0, ground (arith, h.1), h.2)

Above-same :
    (x y : Block) (rest : List Block)
    → x.address ≡ y.address
    → x.size ≡ y.size
    → x.is_free ≡ y.is_free
    → Above x rest
    → Above y rest
Above-same x y [] a s f h = tt
Above-same x y (z ∷ rest) a s f h = (h.0, ground (arith, h.1, a, s, f), h.2)

give_back-lem :
    (before : List Block) (b : Block) (after : List Block) (bins : Bins)
    → b.is_free ≡ true
    → Below before (used b)
    → IsBlock b
    → Above b after
    → ((k a : ℕ) → listed a (bins k) ≡ total (free_here k a) before + total (free_here k a) after)
    → IsValid (give_back b before after bins)
      × ((a s : ℕ)
          → total (used_here a s) (give_back b before after bins).chain
            ≡ total (used_here a s) before + total (used_here a s) after)
give_back-lem [] b after bins f lo m hi c = unfold unwind in put_back [] b after bins f tt m hi c
give_back-lem (p ∷ before) b after bins f lo m hi c =
    elim (Bool-cases (p.is_free && adjacent p b)) [
      | inl merges ↦ rw merges (
        (put_back before (joined p b) after (bin_remove p bins) (ground (arith, merges))
            (Below-end before p (joined p b) refl refl lo.2) (ground (arith, m, lo.0, merges))
            (Above-end (joined p b) b after (ground (arith, merges)) f hi)
            (λ k a. ground (arith, c k a, listed-bin_remove p bins k a, merges))).0,
        λ a s. ground (arith, merges, total-unwind (used_here a s) before (joined p b ∷ after)),
      )
      | inr apart ↦
          rw apart (
            put_back (p ∷ before) b after bins f (lo.0, ground (arith, lo.1, apart, f), lo.2) m hi
              c)
    ]

release-Freed :
    {h : Heap} (v : View)
    → IsValid h
    → v.block.is_free ≡ false
    → view_at v.block.address h.chain ≡ some v
    → Freed h (v.block.address + header_size) v.block.size (release v h.bins)
unfolding release
release-Freed {h} v i in_use e = record {
  valid = g.0;
  one_less = λ a s. ground (arith, in_use, g.1 a s, m.2.used_same a s, parts (used_here a s));
}
  where
    seen : IsView v
    seen = view_at-IsView v.block.address h.chain i.blocks e

    parts : (f : Block → ℕ) → total f h.chain ≡ total f v.before + (f v.block + total f v.after)
    parts f =
        rw (sym (view_at-close v.block.address h.chain e).0)
          (total-unwind f v.before (v.block ∷ v.after))

    target : View
    target = record v { block = freed v.block }

    r : View × Bins
    r = merge_with_next target h.bins

    m : Merged target r
    m = merge_with_next-Merged target h.bins record {
      below = Below-end v.before v.block (used v.block) refl in_use seen.below;
      block = ground (arith, seen.block);
      above = Above-same v.block (used v.block) v.after refl refl in_use seen.above;
      binned = λ k a. ground (arith, in_use, i.binned k a, parts (free_here k a));
    }

    g :
        IsValid (give_back r.0.block r.0.before r.0.after r.1)
        × ((a s : ℕ)
            → total (used_here a s) (give_back r.0.block r.0.before r.0.after r.1).chain
              ≡ total (used_here a s) r.0.before + total (used_here a s) r.0.after)
    g =
        give_back-lem r.0.before r.0.block r.0.after r.1 m.2.is_free m.0.below m.0.block
          (Above-same (freed r.0.block) r.0.block r.0.after refl refl (sym m.2.is_free) m.1)
          m.0.binned

-- `free` of a pointer to a block in use succeeds, leaves the heap well-formed with that block no
-- longer in use, and leaves every other block in use as it was.
pub free-Freed :
    {h : Heap} (pointer : ℕ) (v : View)
    → IsValid h
    → 32 ≤ pointer
    → view_at (pointer - header_size) h.chain ≡ some v
    → v.block.is_free ≡ false
    → (h' : Heap) × (free pointer h ≡ some h') × Freed h pointer v.block.size h'
unfolding free
free-Freed {h} pointer v i lo e in_use = (
  release v h.bins,
  rw (not_null, e, in_use) refl,
  record { valid = w.valid; one_less = λ a s. ground (arith, w.one_less a s, place) },
)
  where
    place : v.block.address ≡ pointer - header_size
    place = (view_at-close (pointer - header_size) h.chain e).1

    not_null : (pointer == 0) ≡ false
    not_null = ground arith

    w : Freed h (v.block.address + header_size) v.block.size (release v h.bins)
    w = release-Freed v i in_use (ap (λ a. view_at a h.chain) place ∙ e)

-- ===== src/Libc/Heap/Split.antt =====
-- user/libc/src/stdlib.c: what cutting a block keeps of the heap around it.
use shit_os.Prelude.{
  ℕ, ◌+◌, ◌%◌, ◌≤◌, ◌≡◌, refl, arith, false, ◌&&◌, List, [], ◌∷◌, ltb, Bool-cases, inl, inr,
}
use shit_os.Libc.Heap.Blocks.{
  Block, View, Bins, word, header_size, bin_insert, adjacent, merge_with_next, merge_after,
  remainder, cut, split,
}
use shit_os.Libc.Heap.Chain.{IsBlock, Above, Below}
use shit_os.Libc.Heap.Count.{
  total, free_here, listed-bin_insert, used, freed, IsHeld, Same, Below-moved, Merged,
  merge_with_next-Merged,
}

-- Merging does not look at the blocks below.
record AgreesAbove (r r' : View × Bins) : Type 0 where
  block : r.0.block ≡ r'.0.block
  after : r.0.after ≡ r'.0.after
  bins : r.1 ≡ r'.1

merge_after-AgreesAbove :
    (bs cs : List Block) (b : Block) (after : List Block) (bins : Bins)
    → AgreesAbove
        (merge_after (record { before = bs; block = b; after = after }) after bins)
        (merge_after (record { before = cs; block = b; after = after }) after bins)
merge_after-AgreesAbove bs cs b [] bins = record { block = refl; after = refl; bins = refl }
merge_after-AgreesAbove bs cs b (a ∷ rest) bins = elim (Bool-cases (a.is_free && adjacent b a)) [
  | inl e ↦ rw e (record { block = refl; after = refl; bins = refl })
  | inr e ↦ rw e (record { block = refl; after = refl; bins = refl })
]

-- the view of the remainder, with the block in front of it in use
abbrev rest_view : ℕ → View → View
rest_view wanted v = record {
  before = used (record v.block { size = wanted }) ∷ v.before;
  block = remainder v.block wanted;
  after = v.after;
}

rest_view-IsHeld :
    (wanted : ℕ) (v : View) (bins : Bins)
    → 16 ≤ wanted
    → wanted % 16 ≡ 0
    → wanted + 48 ≤ v.block.size
    → IsHeld v bins
    → IsHeld (rest_view wanted v) bins
rest_view-IsHeld wanted v bins lo al hi h = record {
  below = (
    ground (arith, h.block),
    ground arith,
    Below-moved v.before v.block (record v.block { size = wanted }) refl h.below,
  );
  block = ground (arith, h.block);
  above = moved_end v.after h.above;
  binned = λ k a. omega (arith, h.binned k a);
}
  where
    moved_end :
        (after : List Block)
        → Above (used v.block) after
        → Above (used (remainder v.block wanted)) after
    moved_end [] u = tt
    moved_end (y ∷ ys) u = (u.0, ground (arith, u.1), u.2)

-- what cutting and splitting give
abbrev pub Trimmed : ℕ → View → View × Bins → Type 0
Trimmed wanted v r = IsHeld r.0 r.1 × Same v r.0 × (wanted ≤ r.0.block.size)

-- the block in front, with the merged remainder above it
abbrev assembled : ℕ → View → View × Bins → View × Bins
assembled wanted v r = (
  record {
    before = v.before;
    block = record v.block { size = wanted };
    after = r.0.block ∷ r.0.after;
  },
  bin_insert r.0.block r.1,
)

assembled-Trimmed :
    (wanted : ℕ) (v : View) (r : View × Bins)
    → 16 ≤ wanted
    → wanted % 16 ≡ 0
    → wanted + 48 ≤ v.block.size
    → IsBlock v.block
    → Below v.before (used v.block)
    → Merged (rest_view wanted v) r
    → Trimmed wanted v (assembled wanted v r)
assembled-Trimmed wanted v r lo al hi b below m = (
  record {
    below = Below-moved v.before v.block (record v.block { size = wanted }) refl below;
    block = ground (arith, b);
    above = (m.0.block, ground (arith, m.2.address), rest_above r.0.after m.1);
    binned = λ k a. omega (
      arith,
      m.0.binned k a,
      front k a r.0.before m.2.below,
      listed-bin_insert r.0.block r.1 k a m.2.is_free,
    );
  },
  record {
    below = refl;
    address = refl;
    is_free = refl;
    used_same = λ a s. ground (arith, m.2.used_same a s, m.2.below, m.2.is_free);
  },
  omega arith,
)
  where
    rest_above : (after : List Block) → Above (freed r.0.block) after → Above r.0.block after
    rest_above [] u = tt
    rest_above (y ∷ ys) u = (u.0, ground (arith, u.1, m.2.is_free), u.2)

    front :
        (k a : ℕ) (before : List Block)
        → before ≡ used (record v.block { size = wanted }) ∷ v.before
        → total (free_here k a) before ≡ total (free_here k a) v.before
    front k a before e = rw e (omega arith)

cut-Trimmed :
    (wanted : ℕ) (v : View) (bins : Bins)
    → 16 ≤ wanted
    → wanted % 16 ≡ 0
    → wanted + 48 ≤ v.block.size
    → IsHeld v bins
    → Trimmed wanted v (cut wanted v bins)
unfolding cut merge_with_next
cut-Trimmed wanted v bins lo al hi h =
    rw (same.block, same.after, same.bins)
      (assembled-Trimmed wanted v (merge_after (rest_view wanted v) v.after bins) lo al hi h.block
        h.below
        (merge_with_next-Merged (rest_view wanted v) bins
          (rest_view-IsHeld wanted v bins lo al hi h)))
  where
    same :
        AgreesAbove
          (merge_after
            (record {
              before = record v.block { size = wanted } ∷ v.before;
              block = remainder v.block wanted;
              after = v.after;
            })
            v.after
            bins)
          (merge_after (rest_view wanted v) v.after bins)
    same =
        merge_after-AgreesAbove (record v.block { size = wanted } ∷ v.before)
          (used (record v.block { size = wanted }) ∷ v.before) (remainder v.block wanted) v.after
          bins

pub split-Trimmed :
    (wanted : ℕ) (v : View) (bins : Bins)
    → 16 ≤ wanted
    → wanted % 16 ≡ 0
    → wanted ≤ v.block.size
    → IsHeld v bins
    → Trimmed wanted v (split wanted v bins)
unfolding split
split-Trimmed wanted v bins lo al hi h =
    elim (Bool-cases (ltb v.block.size (word (wanted + header_size + 16)))) [
      | inl small ↦ rw small (h, unchanged, hi)
      | inr large ↦ rw large (cut-Trimmed wanted v bins lo al (room large) h)
    ]
  where
    unchanged : Same v v
    unchanged = record { below = refl; address = refl; is_free = refl; used_same = λ a s. refl }

    room : ltb v.block.size (word (wanted + header_size + 16)) ≡ false → wanted + 48 ≤ v.block.size
    room large = ground (arith, h.block)

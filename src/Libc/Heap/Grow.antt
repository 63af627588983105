-- ===== src/Libc/Heap/Grow.antt =====
-- user/libc/src/stdlib.c: `extend_heap`, in a well-formed heap.
use shit_os.Prelude.{
  ℕ, ◌+◌, ◌-◌, ◌%◌, ◌^◌, ◌≤◌, ◌≡◌, refl, arith, true, ◌&&◌, List, [], ◌∷◌, some, Bool-cases, inl,
  inr,
}
use shit_os.Libc.Heap.Blocks.{Block, View, Bins, Heap, header_size, adjacent, joined, unwind}
use shit_os.Libc.Heap.Alloc.{growth, appended, extend_heap}
use shit_os.Libc.Heap.Chain.{IsBlock, Above, Below, IsChain}
use shit_os.Libc.Heap.Count.{
  total, listed, free_here, used_here, listed-bin_remove, total-unwind, used,
}
use shit_os.Libc.Heap.Find.{IsValid, Ready}

-- the chain from its end
abbrev IsReversed : List Block → Type 0
IsReversed [] = Unit {0}
IsReversed (x ∷ xs) = IsBlock x × Below xs x

IsReversed-from :
    (chain before : List Block) (x : Block)
    → Below before x
    → IsBlock x
    → Above x chain
    → IsReversed (unwind chain (x ∷ before))
unfolding unwind
IsReversed-from [] before x lo m hi = (m, lo)
IsReversed-from (y ∷ chain) before x lo m hi =
    IsReversed-from chain (x ∷ before) y (m, hi.1, lo) hi.0 hi.2

unwind-IsReversed : (chain : List Block) → IsChain chain → IsReversed (unwind chain [])
unfolding unwind
unwind-IsReversed [] i = tt
unwind-IsReversed (x ∷ chain) i = IsReversed-from chain [] x tt i.0 i.1

-- the end of the last block of a chain that is given from its end
abbrev end_of : List Block → ℕ
end_of [] = 0
end_of (x ∷ xs) = x.address + header_size + x.size

abbrev pub heap_end : Heap → ℕ
heap_end h = end_of (unwind h.chain [])

-- What `sbrk` answers: aligned memory above all that it gave before, of the size asked for.
pub record IsGiven (h : Heap) (payload memory : ℕ) : Type 0 where
  pub aligned : memory % 16 ≡ 0
  pub above : heap_end h ≤ memory
  pub in_memory : memory + growth payload ≤ 2 ^ 63

growth_large :
    (payload : ℕ)
    → payload ≤ 2 ^ 62
    → (payload + header_size ≤ growth payload) × (growth payload % 16 ≡ 0)
unfolding growth
growth_large payload h = ground arith

appended-Ready :
    (h : Heap) (payload : ℕ) (b : Block) (before : List Block) (bins : Bins)
    → payload ≤ b.size
    → IsBlock b
    → IsReversed before
    → end_of before ≤ b.address
    → ((k a : ℕ) → listed a (bins k) ≡ total (free_here k a) before)
    → ((a s : ℕ) → total (used_here a s) h.chain ≡ total (used_here a s) before)
    → Ready h payload (appended b before bins).0 (appended b before bins).1
appended-Ready h payload b [] bins fits m r e c u = record {
  held = record { below = tt; block = m; above = tt; binned = λ k a. omega (arith, c k a) };
  fits = fits;
  used_same = λ a s. omega (arith, u a s);
}
appended-Ready h payload b (p ∷ before) bins fits m r e c u =
    elim (Bool-cases (p.is_free && adjacent p b)) [
      | inl merges ↦ rw merges record {
        held = record {
          below = below_free before r.1;
          block = ground (arith, m, r.0, merges);
          above = tt;
          binned = λ k a. ground (arith, c k a, listed-bin_remove p bins k a, merges);
        };
        fits = omega arith;
        used_same = λ a s. ground (arith, u a s, merges);
      }
      | inr apart ↦ rw apart record {
        held = record {
          below = (r.0, ground (arith, e), r.1);
          block = m;
          above = tt;
          binned = λ k a. omega (arith, c k a);
        };
        fits = fits;
        used_same = λ a s. omega (arith, u a s);
      }
    ]
  where
    below_free : (list : List Block) → Below list p → Below list (used (joined p b))
    below_free [] h = tt
    below_free (x ∷ xs) h = (h.0, ground (arith, h.1), h.2)

pub extend_heap-Ready :
    {h : Heap} (payload memory : ℕ)
    → IsValid h
    → 16 ≤ payload
    → payload ≤ 2 ^ 62
    → IsGiven h payload memory
    → (v : View) × (bins : Bins) × (extend_heap (some memory) payload h ≡ some (v, bins))
      × Ready h payload v bins
unfolding extend_heap
extend_heap-Ready {h} payload memory i lo hi g = (
  (appended fresh (unwind h.chain []) h.bins).0,
  (appended fresh (unwind h.chain []) h.bins).1,
  refl,
  appended-Ready h payload fresh (unwind h.chain []) h.bins
      (omega (arith, (growth_large payload hi).0))
      record {
        size_aligned = omega (arith, growth_large payload hi);
        size_pos = omega (arith, (growth_large payload hi).0);
        address_aligned = g.aligned;
        in_memory = omega (arith, g.in_memory, (growth_large payload hi).0);
      }
      (unwind-IsReversed h.chain i.blocks) g.above
      (λ k a. omega (arith, i.binned k a, total-unwind (free_here k a) h.chain []))
      (λ a s. omega (arith, total-unwind (used_here a s) h.chain [])),
)
  where
    fresh : Block
    fresh = record { address = memory; size = growth payload - header_size; is_free = true }

-- ===== src/Examples/Slabs.antt =====
-- The theorems on rgoffi/go/gocruntime/fixalloc.c at concrete allocators.
use challenges.Common.{
  [], ◌∷◌, ℕ, ◌+◌, ◌^◌, ◌≤◌, ◌<◌, ◌≡◌, ◌⊎◌, refl, true, false, Bool, leb, ltb, le→not_ltb, lt→ltb,
  some, arith, if◌then◌else◌,
}
use challenges.Memory.{Mem, null, put, within}
use challenges.Fixalloc.{GoRuntime, IsGoRuntime, Fixalloc, init, alloc, dealloc}
use challenges.Fixalloc.{refill, advance}
use challenges.Fixalloc.Run.{IsPersistent, set_live, Step, allocated, Reach, begun, later}
use challenges.Fixalloc.Run.Counts.{IsCounted, Reach-alloc}
use challenges.Fixalloc.Run.Safety.{Reach-disjoint, Step-spares}
use challenges.Fixalloc.Test.{node_line, freeing, test, test-shown}
use challenges.Fixalloc.Blocks.{alloc-dealloc}
use challenges.Fixalloc.Chunk.{allocs, block_ends, allocs-chunk}

-- A runtime that hands out one chunk after the other.
abbrev runtime : GoRuntime ℕ
runtime = record {
  memclr_noheap_pointers = λ m p n q. if within p n q then 0 else m q;
  persistent_alloc = λ w n. (w, w + n);
}

runtime-IsGoRuntime : IsGoRuntime runtime
runtime-IsGoRuntime = record { memclr-within = λ m p n q low high. ground (arith, low, high) }

abbrev blank : Mem
blank _ = 0

abbrev no_block : ℕ → Bool
no_block p = false

-- An allocator for blocks of 16 bytes, as `init` leaves it.
abbrev fresh : Fixalloc ℕ
fresh = record {
  size = 16;
  list = null;
  chunk = 0;
  nchunk = 0;
  nalloc = 16384;
  inuse = 0;
  zero = true;
  mem = blank;
  world = 4096;
}

alloc-dealloc_example :
    (g : Fixalloc ℕ) × (alloc runtime (dealloc fresh 4112) ≡ some (4112, g))
    × (g.list ≡ null)
    × (g.inuse ≡ 0)
    × ((q : ℕ) → 4112 ≤ q → q < 4112 + 16 → g.mem q ≡ 0)
alloc-dealloc_example =
    alloc-dealloc runtime runtime-IsGoRuntime fresh 4112 (ground arith) refl (ground arith)
      (omega arith) (omega arith)

allocs-chunk_example :
    (g : Fixalloc ℕ) × (allocs runtime 1024 fresh ≡ some (block_ends 1024 16 4096, g))
    × (g.nchunk ≡ 0)
    × (g.chunk ≡ 4096 + 16384)
allocs-chunk_example =
    allocs-chunk runtime fresh 1023 4096 20480 (ground arith) refl refl refl (omega arith) refl
      (omega arith)

-- A runtime whose memory ends at 2 ^ 40, with what it has given out.
abbrev exhausted : ℕ → ℕ → Bool
exhausted w n = leb (2 ^ 40) (w + n)

abbrev taken : ℕ → ℕ → Bool
taken w q = ltb q w

runtime-IsPersistent : IsPersistent runtime exhausted taken
runtime-IsPersistent = record {
  fresh = λ w n q granted low high. (le→not_ltb q w low, lt→ltb q (w + n) high);
  kept = λ w n q e. ground (arith, e);
  below = λ w n granted. ground (arith, granted);
  memclr-outside = λ m p n q out. ground (arith, out);
}

begins : Reach runtime exhausted 16 fresh fresh no_block
unfolding init
begins = begun refl

abbrev first_block : ℕ × Fixalloc ℕ
first_block = advance (refill runtime fresh)

abbrev second_block : ℕ × Fixalloc ℕ
second_block = advance (refill runtime first_block.1)

first_alloc : Step runtime exhausted fresh no_block first_block.1 (set_live no_block 4112 true)
unfolding alloc advance refill
first_alloc = allocated 4112 (λ empty short. refl) refl

after_first : Reach runtime exhausted 16 fresh first_block.1 (set_live no_block 4112 true)
after_first = later begins first_alloc

second_alloc :
    Step runtime exhausted first_block.1
      (set_live no_block 4112 true)
      second_block.1
      (set_live (set_live no_block 4112 true) 4128 true)
unfolding alloc advance refill
second_alloc = allocated 4128 (λ empty short. refl) refl

Reach-disjoint_example : (4120 < 4128) ⊎ (4128 + 16 ≤ 4120)
unfolding advance refill
Reach-disjoint_example =
    Reach-disjoint runtime runtime-IsPersistent 4112 4128 4120 (later after_first second_alloc) refl
      refl (ground arith) (omega arith) (omega arith)

Step-spares_example :
    (second_block.1.mem 4120 ≡ first_block.1.mem 4120)
    ⊎ (((v : ℕ) × (second_block.1 ≡ record first_block.1 { mem = put first_block.1.mem 4120 v }))
        ⊎ (set_live (set_live no_block 4112 true) 4128 true 4112 ≡ false))
unfolding advance refill
Step-spares_example =
    Step-spares runtime runtime-IsPersistent 4112 4120 after_first second_alloc refl (omega arith)
      (omega arith)

Reach-alloc_example :
    IsCounted first_block.1 (set_live no_block 4112 true)
    × ((v : ℕ) × (h : Fixalloc ℕ) × (alloc runtime first_block.1 ≡ some (v, h))
        × ((set_live no_block 4112 true v ≡ false)
            ⊎ ((first_block.1.list ≡ null)
                × (first_block.1.nchunk < first_block.1.size)
                × (exhausted first_block.1.world first_block.1.nalloc ≡ true))))
Reach-alloc_example = Reach-alloc runtime runtime-IsPersistent after_first

test-shown_example :
    (k : Fixalloc ℕ) × (n : ℕ) × (n ≡ 4096 + 16)
    × (test runtime fresh
        ≡ some (
          node_line (record { address = n; content = 0xcafebabe; next = null })
              ∷ (freeing ∷ (node_line (record { address = n; content = 0; next = null }) ∷ [])),
          k,
        ))
    × (k.list ≡ n)
    × (k.inuse ≡ 0)
test-shown_example = test-shown runtime fresh (omega arith)

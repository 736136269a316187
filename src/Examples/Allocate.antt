-- ===== src/Examples/Allocate.antt =====
-- The theorems on `kmalloc`, `morecore` and `kcalloc` of kmalloc/original/kmalloc.c at concrete heaps.
use challenges.Common.{◌+◌, ◌*◌, ◌%◌, ◌^◌, ◌<◌, ℕ, ◌≢◌, ◌≡◌, ◌⊎◌, refl, none, some, arith}
use challenges.Memory.{null, clear_bytes}
use challenges.Memory.Words.{minus_one, add64, sub64}
use challenges.Kmalloc.{
  Heap, kmalloc, serve, choose_bucket, size_loop, obtain_block, carve, take_block,
}
use challenges.Kmalloc.Buckets.{block_size, bucket_size}
use challenges.Kmalloc.Resize.Overflow.{kcalloc-overflow}
use challenges.Kmalloc.Layout.{Owners, IsHeap}
use challenges.Kmalloc.Serve.{Served, Refused}
use challenges.Kmalloc.First.{nobody, kmalloc-IsServed, kmalloc-first, ready, unready, gap_answer}
use challenges.Kmalloc.Resize.{kcalloc}
use challenges.Kmalloc.Resize.Calloc.{IsCleared, kcalloc-IsCleared}
use challenges.Kmalloc.Test.{main, lines}
use challenges.Kmalloc.Test.Loaded.{main-shown}
use challenges.Kmalloc.Unready.{unready-overlaps}
use challenges.Examples.{
  used_heap, small_os, small_os-IsOs, brk, page, initial, initial-IsInitial, page_of_blocks,
  page_of_blocks-IsHeap, owners,
}

kmalloc-IsServed_example :
    Served small_os brk small_os-IsOs page_of_blocks-IsHeap 20 (kmalloc small_os 20 page_of_blocks)
kmalloc-IsServed_example = kmalloc-IsServed small_os small_os-IsOs page_of_blocks-IsHeap 20

kmalloc-first_example :
    ((w : ℕ) × (inv : IsHeap brk
        (ready small_os small_os-IsOs page initial-IsInitial w)
        nobody
        (λ _. 0))
      × Served small_os brk small_os-IsOs inv 20 (kmalloc small_os 20 initial))
    ⊎ ((kmalloc small_os 20 initial
          ≡ some (null, unready small_os small_os-IsOs page initial-IsInitial))
        × ((gap_answer small_os small_os-IsOs page initial-IsInitial).0 ≡ minus_one))
kmalloc-first_example = kmalloc-first small_os small_os-IsOs page initial-IsInitial 20

kcalloc-IsCleared_example :
    ((p : ℕ) × (h' : Heap ℕ) × (kcalloc small_os 5 4 page_of_blocks ≡ some (p, h'))
      × IsCleared brk page_of_blocks owners 20 p h')
    ⊎ ((kcalloc small_os 5 4 page_of_blocks ≡ none) × Refused small_os brk page_of_blocks 20)
kcalloc-IsCleared_example = kcalloc-IsCleared small_os small_os-IsOs page_of_blocks-IsHeap 5 4

-- The state after a first call for which `sbrk` failed.
abbrev stuck : Heap ℕ
stuck = record { mem = λ _. 0; nextf = λ _. null; pagesz = 4096; pagebucket = 0; world = 1000 }

unready-overlaps_example :
    (h' : Heap ℕ) × (kmalloc small_os 5000 stuck ≡ some (1008, h')) × (h'.nextf 0 ≡ 1008)
unready-overlaps_example =
    unready-overlaps small_os page (omega arith) stuck refl refl refl 5000 (omega arith)
      (omega arith) 1000 5096 refl (ground arith) refl (omega arith)

main-shown_example :
    ((h1 : Heap ℕ) × (kmalloc small_os 8 initial ≡ some (null, h1))
      × (main small_os initial ≡ none))
    ⊎ ((ov : ℕ) × (second : ℕ) × (h1 : Heap ℕ) × (h2 : Heap ℕ) × (h' : Heap ℕ) × (kmalloc small_os 8
            initial
          ≡ some (ov, h1))
        × (kmalloc small_os 8 h1 ≡ some (second, h2))
        × (second ≢ ov)
        × (main small_os initial ≡ some (lines second, h'))
        × (ow : Owners) × (len : ℕ → ℕ) × IsHeap brk h' ow len)
main-shown_example = main-shown small_os small_os-IsOs page initial-IsInitial

-- The heap after a call for 20 bytes, which are cleared.
abbrev cleared_heap : Heap ℕ
cleared_heap = record used_heap { mem = clear_bytes used_heap.mem 4096 20 }

wrapped_call : kcalloc small_os (2 ^ 62 + 5) 4 page_of_blocks ≡ some (4096, cleared_heap)
unfolding kcalloc kmalloc serve choose_bucket size_loop obtain_block carve take_block add64 sub64
    clear_bytes block_size bucket_size
wrapped_call = refl

kcalloc-overflow_example :
    (c : IsCleared brk page_of_blocks owners ((2 ^ 62 + 5) * 4 % 2 ^ 64) 4096 cleared_heap)
    × (block_size 4096 (c.fresh).bucket < (2 ^ 62 + 5) * 4)
kcalloc-overflow_example =
    kcalloc-overflow small_os small_os-IsOs page_of_blocks-IsHeap (2 ^ 62 + 5) 4 4096 (omega arith)
      wrapped_call

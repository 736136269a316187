-- ===== src/Examples/Counting.antt =====
-- The theorems on kmalloc/original/kmalloc.c as it is built with MSTATS, at concrete heaps.
use challenges.Common.{ℕ, ◌≡◌, refl, some, arith, ◌==◌, if◌then◌else◌}
use challenges.Memory.Words.{add64, sub64, shift_one, sign_extend, is_negative}
use challenges.Kmalloc.{
  kmalloc, kfree, choose_bucket, size_loop, morecore, extend, carve, take_block,
}
use challenges.Kmalloc.Buckets.{block_size, bucket_size}
use challenges.Kmalloc.Run.Start.{set_up}
use challenges.Kmalloc.Resize.{kcalloc, krealloc}
use challenges.Kmalloc.Run.{no_live, set_live}
use challenges.Kmalloc.Stats.{
  Stats, count_up, stats_kmalloc, stats_serve, stats_obtain_block, stats_take_block, stats_kfree,
  stats_kcalloc, stats_krealloc,
}
use challenges.Kmalloc.Stats.Erasure.{erased, erased_state, stats-erased}
use challenges.Kmalloc.Stats.Program.{allocated, StatsReach, started, continued}
use challenges.Kmalloc.Stats.Tally.{IsTally}
use challenges.Kmalloc.Stats.Invariant.{StatsReach-IsTally}
use challenges.Examples.{small_os, small_os-IsOs, ready_heap, ready_heap-IsHeap, used_heap}

-- Before and after a first call.
abbrev ready : Stats ℕ
ready = record { heap = ready_heap; nmalloc = λ _. 0 }

abbrev one_used : Stats ℕ
one_used = record { heap = used_heap; nmalloc = count_up (λ _. 0) 2 }

stats-erased_example :
    (erased (stats_kmalloc small_os 20 ready) ≡ kmalloc small_os 20 ready_heap)
    × (erased (stats_kcalloc small_os 5 4 ready) ≡ kcalloc small_os 5 4 ready_heap)
    × (erased (stats_krealloc small_os 100 4 4096 20 ready)
        ≡ krealloc small_os 100 4 4096 20 ready_heap)
    × (erased_state (stats_kfree 4096 ready) ≡ kfree 4096 ready_heap)
stats-erased_example = stats-erased small_os ready 100 4 4096 20 5 4

counted_call : stats_kmalloc small_os 20 ready ≡ some (4096, one_used)
unfolding stats_kmalloc stats_serve choose_bucket size_loop stats_obtain_block morecore extend carve
    stats_take_block take_block add64 sub64 shift_one sign_extend is_negative block_size bucket_size
counted_call = refl

after_one : StatsReach small_os ready_heap one_used (set_live no_live 4096 (some 20))
after_one = continued started (allocated 20 4096 counted_call (ground arith))

StatsReach-IsTally_example :
    IsTally used_heap.mem (set_live no_live 4096 (some 20)) (count_up (λ _. 0) 2)
StatsReach-IsTally_example =
    StatsReach-IsTally small_os small_os-IsOs (set_up (λ _. 0) ready_heap-IsHeap) after_one

-- The one list that is not empty has 128 blocks.
abbrev lengths : ℕ → ℕ
lengths = λ b. if b == 2 then 128 else 0

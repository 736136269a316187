-- ===== src/Examples/Running.antt =====
-- The theorems on whole runs of a program that uses kmalloc/original/kmalloc.c, after two calls, from
-- the state at the start and from a heap that is set up.
use challenges.Common.{ℕ, ◌+◌, ◌-◌, ◌≤◌, ◌<◌, ◌≡◌, ◌≢◌, ◌⊎◌, refl, none, some, arith}
use challenges.Memory.{put, load_pointer, load_bytes, store_pointer, store_bytes}
use challenges.Memory.Words.{add64, sub64, shift_one, sign_extend, is_negative, minus_one}
use challenges.Kmalloc.{
  Heap, kmalloc, kfree, kmalloc_usable_size, serve, choose_bucket, size_loop, obtain_block,
  morecore, extend, carve, take_block, setup, page_loop, align_gap,
}
use challenges.Kmalloc.Buckets.{block_size, bucket_size}
use challenges.Kmalloc.Run.Start.{set_up, loaded}
use challenges.Kmalloc.First.{gap_answer}
use challenges.Kmalloc.Run.{Step, Writes, Live, no_live, set_live, allocated, Reach, begun, later}
use challenges.Kmalloc.Run.Safety.{IsGone, Reach-apart, Step-keeps}
use challenges.Kmalloc.Run.Answers.{Reach-answered}
use challenges.Kmalloc.Resize.{krealloc}
use challenges.Examples.{
  small_os, small_os-IsOs, page, initial, initial-IsInitial, ready_heap, ready_heap-IsHeap,
  used_heap,
}

first_call : kmalloc small_os 20 ready_heap ≡ some (4096, used_heap)
unfolding kmalloc serve choose_bucket size_loop obtain_block morecore extend carve take_block add64
    sub64 shift_one sign_extend is_negative block_size bucket_size
first_call = refl

abbrev next_heap : Heap ℕ
next_heap = (take_block small_os 2 used_heap).1

second_call : kmalloc small_os 20 used_heap ≡ some (4128, next_heap)
unfolding kmalloc serve choose_bucket size_loop obtain_block carve take_block add64 sub64
    load_pointer load_bytes store_pointer store_bytes put block_size bucket_size
second_call = refl

abbrev one_live : Live
one_live = set_live no_live 4096 (some 20)

abbrev two_live : Live
two_live = set_live one_live 4128 (some 20)

after_one : Reach small_os ready_heap used_heap one_live
after_one = later begun (allocated 20 4096 first_call (ground arith))

after_two : Reach small_os ready_heap next_heap two_live
after_two = later after_one (allocated 20 4128 second_call (ground arith))

-- The first call sets the heap up.
loaded_call : kmalloc small_os 20 initial ≡ some (4096, used_heap)
unfolding kmalloc setup page_loop align_gap serve choose_bucket size_loop obtain_block morecore
    extend carve take_block add64 sub64 shift_one sign_extend is_negative block_size bucket_size
loaded_call = refl

granted : (gap_answer small_os small_os-IsOs page initial-IsInitial).0 ≢ minus_one
unfolding align_gap
granted = ground arith

after_loaded : Reach small_os initial next_heap two_live
after_loaded =
    later (later begun (allocated 20 4096 loaded_call (ground arith)))
      (allocated 20 4128 second_call (ground arith))

Reach-apart_example : (4100 < 4128) ⊎ (4128 + 20 ≤ 4100)
Reach-apart_example =
    Reach-apart small_os small_os-IsOs (loaded page initial-IsInitial granted) 4096 4128 20 20 4100
      after_loaded refl refl (ground arith) (omega arith) (omega arith)

second_step : Step small_os used_heap one_live next_heap two_live
second_step = allocated 20 4128 second_call (ground arith)

Step-keeps_example :
    (next_heap.mem 4100 ≡ used_heap.mem 4100)
    ⊎ (Writes second_step 4100 ⊎ IsGone two_live 4096 4100)
Step-keeps_example =
    Step-keeps small_os small_os-IsOs (set_up (λ _. 0) ready_heap-IsHeap) 4096 20 4100 after_one
      second_step refl (omega arith) (omega arith)

Reach-answered_example :
    ((q : ℕ) × (h' : Heap ℕ) × (kmalloc small_os 50 next_heap ≡ some (q, h')))
    × ((two_live 4096 ≡ none)
        ⊎ ((n : ℕ) × (two_live 4096 ≡ some n)
            × ((q : ℕ) × (h' : Heap ℕ) × (krealloc small_os 100 4 4096 50 next_heap ≡ some (q, h')))
            × ((h' : Heap ℕ) × (kfree 4096 next_heap ≡ some h') × (kfree 4096 h' ≡ some h'))
            × ((b : ℕ) × (kmalloc_usable_size 4096 next_heap ≡ b)
                × (n + 8 ≤ block_size 4096 b)
                × ((b ≡ 0) ⊎ (b < block_size 4096 b - 8)))))
unfolding take_block
Reach-answered_example =
    Reach-answered small_os small_os-IsOs (loaded page initial-IsInitial granted) 4096 50 100 4
      after_loaded

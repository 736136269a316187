-- ===== src/Examples/Release.antt =====
-- The theorems on `kfree`, `krealloc` and `kmalloc_usable_size` of kmalloc/original/kmalloc.c at a heap
-- with a block in use.
use challenges.Common.{ℕ, ◌-◌, ◌≡◌, refl, false, some, arith, ◌>>=◌}
use challenges.Kmalloc.{Heap, take_block, kmalloc, kfree, overhead_size, update}
use challenges.Kmalloc.Buckets.{bucket_size, block_size, block_size_mono}
use challenges.Kmalloc.Buckets.Choice.{Chosen}
use challenges.Kmalloc.Layout.{claim, free_block, IsHeap}
use challenges.Kmalloc.Free.{data_of, freed, kfree-IsHeap}
use challenges.Kmalloc.Reuse.{kmalloc-kfree}
use challenges.Kmalloc.Resize.{krealloc, stays, lower_size}
use challenges.Kmalloc.Resize.Compaction.{krealloc-compaction}
use challenges.Kmalloc.Resize.Copy.{IsCopied}
use challenges.Kmalloc.Resize.Search.{nth_free}
use challenges.Kmalloc.Resize.Move.{IsMoved, krealloc-IsMoved}
use challenges.Examples.{
  small_os, small_os-IsOs, brk, used_heap, used_heap-IsHeap, used_owners, used_lengths, in_use,
  owners, page_of_blocks, page_of_blocks-IsHeap,
}

-- 20 bytes and a header take a block of 32.
twenty : Chosen 4096 20 (some 2)
unfolding block_size bucket_size
twenty = (
  omega arith,
  omega arith,
  omega arith,
  λ c low below. omega (arith, block_size_mono 4096 c 1 (omega (arith, below)), block_1),
)
  where
    block_1 : block_size 4096 1 ≡ 16
    block_1 = refl

kfree-IsHeap_example :
    (kfree (data_of 4088) used_heap ≡ some (freed used_heap 4088 2))
    × IsHeap brk
        (freed used_heap 4088 2)
        (claim used_owners 4088 (block_size 4096 2) (free_block 4088 2 (used_lengths 2)))
        (update used_lengths 2 128)
unfolding take_block
kfree-IsHeap_example = kfree-IsHeap used_heap-IsHeap 4088 2 in_use

kmalloc-kfree_example :
    (h' : Heap ℕ) × ((kfree (data_of 4088) used_heap >>= kmalloc small_os 20)
      ≡ some (data_of 4088, h'))
unfolding take_block
kmalloc-kfree_example = kmalloc-kfree small_os used_heap-IsHeap 4088 2 in_use 20 twenty

-- 100 bytes do not fit.
goes : stays 4096 2 (block_size 4096 2 - overhead_size) 100 ≡ false
unfolding block_size bucket_size lower_size
goes = refl

krealloc-IsMoved_example :
    (res : ℕ) × (h' : Heap ℕ) × (krealloc small_os 100 4 (data_of 4088) 100 used_heap
      ≡ some (res, h'))
    × IsMoved small_os brk used_heap used_owners used_lengths 4088 2 100 res h'
unfolding take_block
krealloc-IsMoved_example =
    krealloc-IsMoved small_os small_os-IsOs 100 4 used_heap-IsHeap in_use 100 (omega arith) goes

krealloc-compaction_example :
    (res : ℕ) × (h' : Heap ℕ) × (krealloc small_os 100 4
        (data_of (nth_free page_of_blocks.mem (page_of_blocks.nextf 2) 3))
        20
        page_of_blocks
      ≡ some (res, h'))
    × IsCopied small_os brk page_of_blocks owners
        (nth_free page_of_blocks.mem (page_of_blocks.nextf 2) 3)
        2
        20
        res
        h'
krealloc-compaction_example =
    krealloc-compaction small_os small_os-IsOs 100 4 page_of_blocks-IsHeap 2 3 (omega arith)
      (omega arith) (omega arith) 20 (omega arith)

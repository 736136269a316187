-- ===== src/Examples.antt =====
-- A machine and heaps of kmalloc/original/kmalloc.c at which the theorems are applied.
pub mod Allocate
pub mod Counting
pub mod Release
pub mod Running
pub mod Schedule
pub mod Search
pub mod Slabs
pub mod Runtime
use challenges.Common.{
  ℕ, zero, suc, ◌+◌, ◌-◌, ◌*◌, ◌%◌, ◌^◌, ◌≤◌, ◌<◌, ◌≡◌, ◌⊎◌, ◌↔◌, refl, leb, if◌then◌else◌, Option,
  none, some, true, ◌>>=◌, arith, inl, inr, Bool-cases,
}
use challenges.Memory.{null}
use challenges.Memory.Words.{minus_one}
use challenges.Kmalloc.{
  Os, IsOs, Heap, kmalloc, kfree, align_gap, page_loop, rounds, take_block, overhead_size, update,
  choose_bucket, serve,
}
use challenges.Kmalloc.Buckets.{IsPage, bucket_size, block_size}
use challenges.Kmalloc.Buckets.Choice.{Chosen, choose_bucket-Chosen}
use challenges.Kmalloc.Setup.{page_loop_lem, align_gap_lem}
use challenges.Kmalloc.Layout.Switch.{claim_self}
use challenges.Kmalloc.Layout.{claim, IsHeap, Owners, used_block, free_block}
use challenges.Kmalloc.First.{
  IsInitial, nobody, ready-IsHeap, kmalloc-IsServed, kmalloc-first, ready, unready, gap, gap_answer,
}
use challenges.Kmalloc.Morecore.{grown, grown-IsHeap, owners_after as grown_owners}
use challenges.Kmalloc.Carve.{span}
use challenges.Kmalloc.Take.{take_block-IsTaken, IsTaken}
use challenges.Kmalloc.Serve.{Served, IsServed}
use challenges.Kmalloc.Free.{kfree-IsHeap, kfree-kfree, data_of, freed}

-- A machine whose break may rise to 2 ^ 40 - 1.
abbrev pub top : ℕ
top = 2 ^ 40

abbrev pub brk : ℕ → ℕ
brk w = w % top

abbrev pub small_os : Os ℕ
small_os = record {
  page_size = 4096;
  sbrk = λ w n. if leb top (brk w + n) then (minus_one, w) else (brk w, brk w + n);
}

pub small_os-IsOs : IsOs small_os brk
small_os-IsOs = record {
  sbrk-cases = λ w n. elim (Bool-cases (leb top (brk w + n))) [
    | inl full ↦ inr (rw full, rw full)
    | inr free ↦ inl (rw free, rw free (ground arith))
  ];
  sbrk-zero = λ w. ground arith;
  brk-lt = λ w. omega arith;
}

pub page : IsPage 4096 9
unfolding bucket_size
page = record { shape = refl; small = omega arith }

-- The state at the start, with the break at 1000.
abbrev pub initial : Heap ℕ
initial = record { mem = λ _. 0; nextf = λ _. null; pagesz = 0; pagebucket = 0; world = 1000 }

pub initial-IsInitial : IsInitial brk initial
initial-IsInitial = record {
  no_page = refl;
  no_bucket = refl;
  empty = λ b. refl;
  bytes = λ a. omega arith;
  blank = λ x l. refl;
  brk_pos = omega arith;
}

-- After the first call has set the page up: the break has moved up to 4088.
abbrev pub ready_heap : Heap ℕ
ready_heap = ready small_os small_os-IsOs page initial-IsInitial 4088

pub moved : brk 4088 ≡ brk 1000 + align_gap 4096 (brk 1000)
unfolding align_gap
moved = refl

pub ready_heap-IsHeap : IsHeap brk ready_heap nobody (λ _. 0)
ready_heap-IsHeap = ready-IsHeap small_os small_os-IsOs page initial-IsInitial 4088 moved

-- A page of blocks of 32 bytes, and the first of them in use.
pub fits : span (block_size 4096 2) 127 ≤ 4096
unfolding block_size bucket_size span
fits = omega arith

abbrev pub page_of_blocks : Heap ℕ
page_of_blocks =
    grown small_os small_os-IsOs ready_heap-IsHeap 2 (omega arith) refl 127 4096 8184 refl refl fits
      (omega arith)

pub page_of_blocks-IsHeap :
    IsHeap brk page_of_blocks
      (grown_owners small_os small_os-IsOs ready_heap-IsHeap 2
        (omega arith)
        refl
        127
        4096
        8184
        refl
        refl
        fits
        (omega arith))
      (update (λ _. 0) 2 128)
page_of_blocks-IsHeap =
    grown-IsHeap small_os small_os-IsOs ready_heap-IsHeap 2 (omega arith) refl 127 4096 8184 refl
      refl fits (omega arith)

abbrev pub owners : Owners
owners =
    grown_owners small_os small_os-IsOs ready_heap-IsHeap 2 (omega arith) refl 127 4096 8184 refl
      refl fits (omega arith)

abbrev pub used_heap : Heap ℕ
used_heap = (take_block small_os 2 page_of_blocks).1

pub used_heap-IsTaken :
    IsTaken brk page_of_blocks owners
      (update (λ _. 0) 2 128)
      2
      4088
      127
      (take_block small_os 2 page_of_blocks).0
      used_heap
used_heap-IsTaken = take_block-IsTaken small_os page_of_blocks-IsHeap 2 127 (omega arith) refl

abbrev pub used_owners : Owners
used_owners = claim owners 4088 (block_size 4096 2) (used_block 4088 2)

abbrev pub used_lengths : ℕ → ℕ
used_lengths = update (update (λ _. 0) 2 128) 2 127

pub used_heap-IsHeap : IsHeap brk used_heap used_owners used_lengths
used_heap-IsHeap = used_heap-IsTaken.heap

pub in_use : used_owners 4088 ≡ used_block 4088 2
unfolding block_size bucket_size
in_use =
    claim_self owners 4088 (block_size 4096 2) (used_block 4088 2) 4088 (omega arith) (omega arith)

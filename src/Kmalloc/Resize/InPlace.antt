-- ===== src/Kmalloc/Resize/InPlace.antt =====
-- When `krealloc` (kmalloc/original/kmalloc.c) hands the same block back.
use challenges.Common.{ℕ, zero, suc, ◌+◌, ◌-◌, ◌<◌, ◌≡◌, ◌↔◌, refl, true, some, arith}
use challenges.Memory.Words.{add64, sub64, is_negative}
use challenges.Kmalloc.{overhead_size}
use challenges.Kmalloc.Buckets.{
  IsPage, bucket_size-ge, bucket_size-le, shift_one-lt, block_size, block_size-ge, block_size_mono,
  last_bucket, pagesz-ge, pagesz-le,
}
use challenges.Kmalloc.Buckets.Choice.{Chosen}
use challenges.Kmalloc.Resize.{old_size, lower_size, stays}

module _ {pagesz pagebucket : ℕ} (page : IsPage pagesz pagebucket) where
  -- What `krealloc` takes for the old size is what a block of that bucket holds.
  pub old_size-block :
      (b : ℕ) → b < last_bucket → old_size pagesz b ≡ some (block_size pagesz b - overhead_size)
  unfolding old_size block_size add64 sub64
  old_size-block b h = rw (shift_one-lt b h) (
      ground
        (arith, bucket_size-ge b, bucket_size-le b (omega arith), pagesz-ge page, pagesz-le page))

  lower_size-block :
      (c : ℕ) → c < last_bucket → lower_size pagesz (suc c) ≡ block_size pagesz c - overhead_size
  unfolding lower_size block_size add64 sub64 is_negative
  lower_size-block c h =
      let e : suc c + 2 ≡ c + 3 = omega arith in
      rw (e, shift_one-lt c h)
        (ground
          (arith, bucket_size-ge c, bucket_size-le c (omega arith), pagesz-ge page, pagesz-le page))

  lower_size-first : lower_size pagesz 0 ≡ 0
  unfolding lower_size
  lower_size-first = refl

  stays-least :
      (b nbytes : ℕ)
      → b < last_bucket
      → lower_size pagesz b < nbytes
      → (c : ℕ) → c < b
      → block_size pagesz c < nbytes + overhead_size
  stays-least zero nbytes h l c lt = absurd (omega arith)
  stays-least (suc k) nbytes h l c lt =
      omega (arith, lower_size-block k (omega arith), block_size_mono pagesz c k (omega arith))

  least-stays :
      (b nbytes : ℕ)
      → b < last_bucket
      → 0 < nbytes
      → ((c : ℕ) → c < b → block_size pagesz c < nbytes + overhead_size)
      → lower_size pagesz b < nbytes
  least-stays zero nbytes h pos least = omega (arith, lower_size-first)
  least-stays (suc k) nbytes h pos least = omega (
    arith,
    lower_size-block k (omega arith),
    least k (omega arith),
    block_size-ge page k,
    bucket_size-ge k,
  )

  -- For a page size that is a bucket's size, a bucket below the last and a size above 0, the test
  -- of `krealloc` keeps the block exactly where `kmalloc` would serve the new size from the same
  -- bucket.
  pub stays-Chosen :
      (b nbytes : ℕ)
      → b < last_bucket
      → 0 < nbytes
      → (stays pagesz b (block_size pagesz b - overhead_size) nbytes ≡ true)
        ↔ Chosen pagesz nbytes (some b)
  stays-Chosen b nbytes h pos = (to, from)
    where
      to :
          stays pagesz b (block_size pagesz b - overhead_size) nbytes ≡ true
          → Chosen pagesz nbytes (some b)
      to s = (
        omega arith,
        omega arith,
        ground (arith, block_size-ge page b, bucket_size-ge b),
        λ c z lt. stays-least b nbytes h (ground arith) c lt,
      )

      from :
          Chosen pagesz nbytes (some b)
          → stays pagesz b (block_size pagesz b - overhead_size) nbytes ≡ true
      from (z, last, room, least) =
          let low = least-stays b nbytes h pos (λ c lt. least c (omega arith) lt) in ground arith

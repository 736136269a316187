-- ===== src/Kmalloc/Unready.antt =====
-- `kmalloc` of kmalloc/original/kmalloc.c after a first call that failed: the page size is set, so that
-- the set-up is not done again, but the bucket of the page is still 0.
use challenges.Common.{
  ℕ, suc, ◌+◌, ◌-◌, ◌/◌, ◌%◌, ◌^◌, ◌≤◌, ◌<◌, ◌≡◌, ◌≢◌, refl, ap, ◌==◌, true, false, some, arith,
  subst, ==-ne, lt→not_leb, le→not_ltb, lt→ltb, ltb,
}
use challenges.Memory.{Mem, null, load_pointer}
use challenges.Memory.Words.{
  add64, add64_of_lt, sub64, sub64_of_le, shift_one, is_negative, minus_one,
}
use challenges.Kmalloc.{
  Os, Heap, overhead_size, update, kmalloc, serve, choose_bucket, size_loop, obtain_block, morecore,
  extend, take_block, carve,
}
use challenges.Kmalloc.Buckets.{IsPage, bucket_size-first, bucket_size-lt, pagesz-le}
use challenges.Kmalloc.Carve.{span-mul, IsRoom, carve-first}

size_loop-stop :
    (fuel nbytes n amt b : ℕ)
    → nbytes ≤ add64 amt n
    → size_loop (suc fuel) nbytes n amt b ≡ some (some b)
unfolding size_loop
size_loop-stop fuel nbytes n amt b h = rw (le→not_ltb (add64 amt n) nbytes h)

module _ {W : Type 0} (os : Os W) {pagesz pagebucket : ℕ} (page : IsPage pagesz pagebucket)
    (real : 0 < pagebucket) (h : Heap W) (same_page : h.pagesz ≡ pagesz)
    (no_bucket : h.pagebucket ≡ 0) (empty : h.nextf 0 ≡ null) (nbytes : ℕ)
    (low : pagesz - overhead_size < nbytes) (high : nbytes ≤ pagesz + pagesz - overhead_size) where
  two_blocks : 16 ≤ pagesz
  two_blocks = omega (arith, page.shape, bucket_size-lt 0 pagebucket real, bucket_size-first)

  -- A request of more than a page goes to the first bucket, whose blocks hold nothing.
  choose-first : choose_bucket pagesz 0 nbytes ≡ some (some 0)
  unfolding choose_bucket
  choose-first =
      let rest : sub64 pagesz overhead_size ≡ pagesz - overhead_size =
        sub64_of_le pagesz overhead_size (omega (arith, pagesz-le page))
          (omega (arith, two_blocks)) in
      let sum : add64 pagesz (pagesz - overhead_size) ≡ pagesz + (pagesz - overhead_size) =
        add64_of_lt pagesz (pagesz - overhead_size) (omega (arith, pagesz-le page)) in
      rw (rest, lt→not_leb nbytes (pagesz - overhead_size) low)
        (size_loop-stop 32 nbytes (pagesz - overhead_size) pagesz 0 (omega (arith, sum)))

  module _ (p : ℕ) (w : W) (granted : os.sbrk h.world pagesz ≡ (p, w)) (not_null : p ≢ 0)
      (aligned : p % 8 ≡ 0) (below : p + pagesz ≤ 2 ^ 63) where
    abbrev chopped : Mem
    chopped = carve (pagesz / 8 - 1) 8 h.mem p

    abbrev stocked : Heap W
    stocked = record h { mem = chopped; nextf = update h.nextf 0 p; world = w }

    morecore-stocked : morecore os 0 h ≡ some stocked
    unfolding morecore extend shift_one is_negative
    morecore-stocked =
        let small : ltb 8 pagesz ≡ true = lt→ltb 8 pagesz (omega (arith, two_blocks)) in
        let there : (p == minus_one) ≡ false = ground (arith, two_blocks) in
        rw (same_page, small, granted, there)

    room : IsRoom 8 (suc (pagesz / 8 - 2)) p
    room = record {
      not_null = not_null;
      aligned = aligned;
      even = refl;
      below = omega (arith, span-mul 8 (suc (pagesz / 8 - 2)), two_blocks);
      big = omega arith;
    }

    next_block : load_pointer chopped p ≡ p + 8
    next_block =
        subst (λ c. load_pointer (carve c 8 h.mem p) p ≡ p + 8) (omega (arith, two_blocks))
          (carve-first {size = 8} {count = pagesz / 8 - 2} {op = p} h.mem room)

    pointer : (take_block os 0 stocked).0 ≡ p + overhead_size
    unfolding take_block
    pointer = (add64_of_lt p overhead_size (omega (arith, two_blocks)))

    next_free : (take_block os 0 stocked).1.nextf 0 ≡ p + overhead_size
    unfolding take_block
    next_free = next_block

    -- Where the page size is set but its bucket is still 0, as a failed first call leaves them,
    -- and `sbrk` grants a page, a request of more than a page less a header, and of at most two
    -- pages less a header, is answered with the pointer that is also the next free block of
    -- eight bytes.
    pub unready-overlaps :
        (h' : Heap W) × (kmalloc os nbytes h ≡ some (p + overhead_size, h'))
        × (h'.nextf 0 ≡ p + overhead_size)
    unfolding kmalloc serve obtain_block
    unready-overlaps =
        let started : (h.pagesz == 0) ≡ false = ground (arith, two_blocks) in
        let there : (p == null) ≡ false = ==-ne p null not_null in
        rw (started, same_page, no_bucket, choose-first, empty, morecore-stocked, there)
          (
            (take_block os 0 stocked).1,
            ap (λ q. some (q, (take_block os 0 stocked).1)) pointer,
            next_free,
          )

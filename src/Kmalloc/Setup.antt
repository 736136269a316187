-- ===== src/Kmalloc/Setup.antt =====
-- The first call of `kmalloc` (kmalloc/original/kmalloc.c): the page's bucket and the aligned break.
use native.Mathlib.Nat.{mul-mod_left, mod-lt, div-add-mod'}
use challenges.Common.{
  ℕ, zero, suc, ◌+◌, ◌*◌, ◌/◌, ◌%◌, ◌^◌, ◌≤◌, ◌<◌, ◌≡◌, ◌∙◌, ap, some, true, false, bit_and, arith,
  ltb, dec_lt, lt→ltb, le→not_ltb, bit_and-mask,
}
use challenges.Memory.Words.{sub64, sub64_of_le}
use challenges.Kmalloc.{page_loop, align_gap, rounds, overhead_size}
use challenges.Kmalloc.Buckets.{
  bucket_size, bucket_size-suc, bucket_size_mono, bucket_size-lt, bucket_size-le, bucket_size-first,
  bucket_size-ge, IsPage, pagesz-ge, pagesz-le,
}

page_loop_from :
    {page pagebucket : ℕ} (is : IsPage page pagebucket) (fuel b : ℕ)
    → b ≤ pagebucket
    → pagebucket < b + fuel
    → page_loop fuel page (bucket_size b) b ≡ some pagebucket
unfolding page_loop
page_loop_from is zero b h f = absurd (omega arith)
page_loop_from {page} {pagebucket} is (suc fuel) b h f = elim (dec_lt b pagebucket) [
  | yes below ↦
      let next : bucket_size b * 2 % 2 ^ 32 ≡ bucket_size (b + 1) =
        omega (arith, bucket_size-suc b, bucket_size-le (b + 1) (omega (arith, is.small))) in
      let more : ltb (bucket_size b) page ≡ true =
        lt→ltb (bucket_size b) page
          (omega (arith, is.shape, bucket_size-lt b pagebucket below, bucket_size-ge b)) in
      rw (more, next) (page_loop_from is fuel (b + 1) (omega arith) (omega arith))
  | no last ↦
      let e : b ≡ pagebucket = omega arith in
      let stop : ltb (bucket_size b) page ≡ false =
        le→not_ltb (bucket_size b) page
          (omega (arith, is.shape, bucket_size_mono pagebucket b (omega arith))) in
      rw stop (ap some e)
]

module _ {page pagebucket : ℕ} (is : IsPage page pagebucket) where
  -- For a page size that is a bucket's size, the loop of the first call ends within its fuel, at
  -- the bucket of the page.
  pub page_loop_lem : page_loop rounds page 8 0 ≡ some pagebucket
  page_loop_lem =
      rw (← bucket_size-first) (page_loop_from is rounds 0 (omega arith) (omega (arith, is.small)))

  mask : (op : ℕ) → bit_and op (sub64 page 1) ≡ op % page
  unfolding bucket_size
  mask op =
      rw (sub64_of_le page 1 (omega (arith, pagesz-le is)) (omega (arith, pagesz-ge is)), is.shape)
        (bit_and-mask (pagebucket + 3) op)

  rem_lt : (op : ℕ) → op % page < page
  rem_lt op = mod-lt op (omega (arith, pagesz-ge is))

  gap_fits :
      (op : ℕ) → op % page + overhead_size ≤ page → align_gap page op + (op % page + 8) ≡ page
  unfolding align_gap
  gap_fits op h = rw (mask op) (ground (arith, pagesz-le is, pagesz-ge is))

  gap_wraps :
      (op : ℕ) → page < op % page + overhead_size → align_gap page op + (op % page + 8) ≡ 2 * page
  unfolding align_gap
  gap_wraps op h = rw (mask op) (ground (arith, pagesz-le is, pagesz-ge is, rem_lt op))

  on_page :
      (op gap k : ℕ) → gap + (op % page + 8) ≡ k * page → (op + gap + overhead_size) % page ≡ 0
  on_page op gap k e =
      ap (λ x. x % page) (omega (arith, div-add-mod' op page, e))
      ∙ mul-mod_left (op / page + k) page

  -- For a page size that is a bucket's size, the gap that the first call leaves below the first
  -- block is less than a page, and the data of that block begins on a page boundary.
  pub align_gap_lem :
      (op : ℕ) → ((op + align_gap page op + overhead_size) % page ≡ 0) × (align_gap page op < page)
  align_gap_lem op = elim (dec_lt page (op % page + overhead_size)) [
    | yes over ↦ (on_page op _ 2 (gap_wraps op over), omega (arith, gap_wraps op over, rem_lt op))
    | no fits ↦ (
      on_page op _ 1 (omega (arith, gap_fits op (omega arith))),
      omega (arith, gap_fits op (omega arith)),
    )
  ]

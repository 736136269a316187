-- ===== src/Kmalloc/Buckets.antt =====
-- The size classes of kmalloc/original/kmalloc.c.
pub mod Choice
use challenges.Common.{
  ℕ, zero, suc, ◌+◌, ◌-◌, ◌*◌, ◌%◌, ◌^◌, ◌≤◌, ◌<◌, ◌≡◌, refl, inl, inr, Option, none, some, false,
  ltb, ◌==◌, if◌then◌else◌, arith, Bool-cases, two_pow_suc, two_pow_mono, dec_lt, dec_le, ap, ◌∙◌,
  sym, le→leb, lt→not_leb,
}
use native.Mathlib.Numerals.{add-one}
use challenges.Memory.Words.{add64, sub64, sub64_of_le, shift_one}
use challenges.Kmalloc.{overhead_size, rounds, size_loop, choose_bucket}

-- `1 << (bucket + 3)`
unfoldable pub bucket_size : ℕ → ℕ
bucket_size b = 2 ^ (b + 3)

-- The bytes that `morecore` sets aside for a block: from a page on, a page more.
unfoldable pub block_size : (pagesz b : ℕ) → ℕ
block_size pagesz b = if ltb (bucket_size b) pagesz then bucket_size b else bucket_size b + pagesz

abbrev pub last_bucket : ℕ
last_bucket = 28

-- The page is the size of bucket `pagebucket`, and the size of an `int`.
pub record IsPage (pagesz pagebucket : ℕ) : Type 0 where
  pub shape : pagesz ≡ bucket_size pagebucket
  pub small : pagebucket ≤ 27

pub bucket_size-suc : (b : ℕ) → bucket_size (b + 1) ≡ 2 * bucket_size b
unfolding bucket_size
bucket_size-suc b = ap (λ k. 2 ^ k) (omega arith) ∙ two_pow_suc (b + 3)

pub bucket_size-suc' : (b : ℕ) → bucket_size (suc b) ≡ 2 * bucket_size b
bucket_size-suc' b = ap bucket_size (sym (add-one b)) ∙ bucket_size-suc b

pub bucket_size_mono : (b c : ℕ) → b ≤ c → bucket_size b ≤ bucket_size c
unfolding bucket_size
bucket_size_mono b c h = two_pow_mono (b + 3) (c + 3) (omega arith)

pub bucket_size-lt : (b c : ℕ) → b < c → 2 * bucket_size b ≤ bucket_size c
bucket_size-lt b c h = omega (arith, bucket_size-suc b, bucket_size_mono (b + 1) c (omega arith))

pub bucket_size-first : bucket_size 0 ≡ 8
unfolding bucket_size
bucket_size-first = refl

pub bucket_size-ge : (b : ℕ) → 8 ≤ bucket_size b
bucket_size-ge b = omega (arith, bucket_size-first, bucket_size_mono 0 b (omega arith))

pub bucket_size-last : bucket_size last_bucket ≡ 2 ^ 31
unfolding bucket_size
bucket_size-last = refl

pub bucket_size-even : (b : ℕ) → bucket_size b % 8 ≡ 0
bucket_size-even zero = omega (arith, bucket_size-first)
bucket_size-even (suc b) = omega (arith, bucket_size-suc' b, bucket_size-even b)

pub bucket_size_27 : bucket_size 27 ≡ 2 ^ 30
unfolding bucket_size
bucket_size_27 = refl

pub bucket_size-le : (b : ℕ) → b ≤ last_bucket → bucket_size b ≤ 2 ^ 31
bucket_size-le b h = omega (arith, bucket_size_mono b last_bucket h, bucket_size-last)

pub double-lt : (b : ℕ) → b < last_bucket → bucket_size b * 2 % 2 ^ 32 ≡ bucket_size (b + 1)
double-lt b h = omega (arith, bucket_size-suc b, bucket_size-le (b + 1) (omega arith))

pub double-last : (b : ℕ) → b ≤ last_bucket → ¬ (b < last_bucket) → bucket_size b * 2 % 2 ^ 32 ≡ 0
double-last b h last = let e : b ≡ last_bucket = omega arith in rw (e, bucket_size-last)

pub nonzero : (b : ℕ) → (bucket_size b == 0) ≡ false
nonzero b = ground (arith, bucket_size-ge b)

pub shift_one-lt : (b : ℕ) → b < last_bucket → shift_one (b + 3) ≡ bucket_size b
unfolding bucket_size shift_one
shift_one-lt b h = ground (arith, two_pow_mono (b + 3) 30 (omega arith))

pub block_size_mono : (pagesz c b : ℕ) → c ≤ b → block_size pagesz c ≤ block_size pagesz b
unfolding block_size
block_size_mono pagesz c b h = ground (arith, bucket_size_mono c b h)

module _ {pagesz pagebucket : ℕ} (page : IsPage pagesz pagebucket) where
  pub pagesz-ge : 8 ≤ pagesz
  pagesz-ge = omega (arith, page.shape, bucket_size-ge pagebucket)

  pub pagesz-le : pagesz ≤ 2 ^ 30
  pagesz-le = omega (arith, page.shape, bucket_size_mono pagebucket 27 page.small, bucket_size_27)

  pub block_size_below : (c : ℕ) → c < pagebucket → block_size pagesz c ≡ bucket_size c
  unfolding block_size
  block_size_below c h = ground (arith, page.shape, bucket_size-lt c pagebucket h, bucket_size-ge c)

  pub block_size_from : (c : ℕ) → pagebucket ≤ c → block_size pagesz c ≡ bucket_size c + pagesz
  unfolding block_size
  block_size_from c h = ground (arith, page.shape, bucket_size_mono pagebucket c h)

  pub block_size-ge : (c : ℕ) → bucket_size c ≤ block_size pagesz c
  unfolding block_size
  block_size-ge c = ground arith

  pub block_size-even : (c : ℕ) → block_size pagesz c % 8 ≡ 0
  unfolding block_size
  block_size-even c = ground (arith, page.shape, bucket_size-even c, bucket_size-even pagebucket)

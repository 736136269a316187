-- ===== src/Kmalloc/Buckets/Choice.antt =====
-- Which size class of kmalloc/original/kmalloc.c a request is served from.
use challenges.Common.{
  ℕ, zero, suc, ◌+◌, ◌-◌, ◌≤◌, ◌<◌, ◌≡◌, inl, inr, Option, none, some, ltb, arith, Bool-cases,
  dec_lt, dec_le, ap, sym, le→leb, lt→not_leb,
}
use challenges.Memory.Words.{add64, sub64, sub64_of_le}
use challenges.Kmalloc.{overhead_size, rounds, size_loop, choose_bucket}
use challenges.Kmalloc.Buckets.{
  bucket_size, block_size, last_bucket, IsPage, bucket_size_mono, bucket_size-lt, bucket_size-first,
  bucket_size-ge, bucket_size-le, double-lt, double-last, nonzero, block_size_mono, pagesz-ge,
  pagesz-le, block_size_below, block_size_from, block_size-ge,
}

-- What the size loop of `kmalloc` comes to, where a block of bucket `c` has room for `size c`.
abbrev Found : (size : ℕ → ℕ) (need b : ℕ) → Option ℕ → Type 0
Found size need b none = size last_bucket < need
Found size need b (some d) =
    (b ≤ d) × (d ≤ last_bucket) × (need ≤ size d) × ((c : ℕ) → b ≤ c → c < d → size c < need)

Found-widen :
    (size : ℕ → ℕ) (need b : ℕ) (r : Option ℕ)
    → size b < need
    → Found size need (b + 1) r
    → Found size need b r
Found-widen size need b none h found = found
Found-widen size need b (some d) h (le, last, room, least) = (
  omega arith,
  last,
  room,
  λ c p q. elim (dec_lt b c) [
    | yes above ↦ least c (omega arith) q
    | no same ↦ let e : b ≡ c = omega arith in rw e at h
  ],
)

module _ (size : ℕ → ℕ) (nbytes n : ℕ)
    (fits : (c : ℕ) → c ≤ last_bucket → add64 (bucket_size c) n + overhead_size ≡ size c) where
  size_loop-Found :
      (fuel b : ℕ)
      → b ≤ last_bucket
      → last_bucket < b + fuel
      → (r : Option ℕ) × (size_loop fuel nbytes n (bucket_size b) b ≡ some r)
        × Found size (nbytes + overhead_size) b r
  unfolding size_loop
  size_loop-Found zero b h f = absurd (omega arith)
  size_loop-Found (suc fuel) b h f = elim (Bool-cases (ltb (add64 (bucket_size b) n) nbytes)) [
    | inl more ↦ elim (dec_lt b last_bucket) [
      | yes below ↦
          let (r, e, found) = size_loop-Found fuel (b + 1) (omega arith) (omega arith) in
          (
            r,
            rw (more, double-lt b below, nonzero (b + 1)) e,
            Found-widen size (nbytes + overhead_size) b r (ground (arith, fits b h)) found,
          )
      | no last ↦ (none, rw (more, double-last b h last), ground (arith, fits b h))
    ]
    | inr stop ↦
        (some b, rw stop, (omega arith, h, ground (arith, fits b h), λ c p q. absurd (omega arith)))
  ]

  size_loop-Found_at :
      (amt b : ℕ)
      → amt ≡ bucket_size b
      → b ≤ last_bucket
      → (r : Option ℕ) × (size_loop rounds nbytes n amt b ≡ some r)
        × Found size (nbytes + overhead_size) b r
  size_loop-Found_at amt b e h = rw e (size_loop-Found rounds b h (omega arith))

-- `Found` from the first bucket on: the least bucket whose blocks hold the request and its header,
-- or none up to the last.
abbrev pub Chosen : (pagesz nbytes : ℕ) → Option ℕ → Type 0
Chosen pagesz nbytes r = Found (block_size pagesz) (nbytes + overhead_size) 0 r

-- At most one answer is the right one.
pub Chosen-unique :
    (pagesz nbytes : ℕ) (r : Option ℕ) {b : ℕ}
    → Chosen pagesz nbytes r
    → Chosen pagesz nbytes (some b)
    → r ≡ some b
Chosen-unique pagesz nbytes none {b} large (z, last, room, least) =
    absurd (omega (arith, block_size_mono pagesz b last_bucket last))
Chosen-unique pagesz nbytes (some d) {b} (z, last, room, least) (z', last', room', least') =
    elim (dec_lt d b) [
      | yes below ↦ absurd (omega (arith, least' d (omega arith) below))
      | no above ↦ elim (dec_lt b d) [
        | yes over ↦ absurd (omega (arith, least b (omega arith) over))
        | no same ↦ ap some (omega arith)
      ]
    ]

module _ {pagesz pagebucket : ℕ} (page : IsPage pagesz pagebucket) where
  small-Chosen :
      (nbytes : ℕ) (r : Option ℕ)
      → nbytes ≤ pagesz - overhead_size
      → Found bucket_size (nbytes + overhead_size) 0 r
      → Chosen pagesz nbytes r
  small-Chosen nbytes none h found = absurd (
      omega (
        arith,
        pagesz-ge page,
        page.shape,
        page.small,
        bucket_size_mono pagebucket last_bucket (omega (arith, page.small)),
      ))
  small-Chosen nbytes (some d) h (le, last, room, least) = (
    le,
    last,
    omega (arith, block_size-ge page d),
    λ c p q. elim (dec_lt c pagebucket) [
      | yes below ↦ omega (arith, block_size_below page c below, least c p q)
      | no above ↦
          absurd (
            omega (arith, pagesz-ge page, page.shape, least pagebucket (omega arith) (omega arith)))
    ],
  )

  large-Chosen :
      (nbytes : ℕ) (r : Option ℕ)
      → pagesz - overhead_size < nbytes
      → Found (λ c. bucket_size c + pagesz) (nbytes + overhead_size) pagebucket r
      → Chosen pagesz nbytes r
  large-Chosen nbytes none h found =
      omega (arith, block_size_from page last_bucket (omega (arith, page.small)))
  large-Chosen nbytes (some d) h (le, last, room, least) = (
    omega arith,
    last,
    omega (arith, block_size_from page d le),
    λ c p q. elim (dec_lt c pagebucket) [
      | yes below ↦ omega (
        arith,
        block_size_below page c below,
        page.shape,
        pagesz-ge page,
        bucket_size-lt c pagebucket below,
      )
      | no above ↦ omega (arith, block_size_from page c (omega arith), least c (omega arith) q)
    ],
  )

  rest : sub64 pagesz overhead_size ≡ pagesz - overhead_size
  rest =
      sub64_of_le pagesz overhead_size (omega (arith, pagesz-le page))
        (omega (arith, pagesz-ge page))

  small_room :
      (c : ℕ)
      → c ≤ last_bucket
      → add64 (bucket_size c) (sub64 0 overhead_size) + overhead_size ≡ bucket_size c
  unfolding add64 sub64
  small_room c h = omega (arith, bucket_size-ge c, bucket_size-le c h)

  large_room :
      (c : ℕ)
      → c ≤ last_bucket
      → add64 (bucket_size c) (pagesz - overhead_size) + overhead_size ≡ bucket_size c + pagesz
  unfolding add64
  large_room c h = omega (arith, bucket_size-le c h, pagesz-le page, pagesz-ge page)

  -- For a page size that is a bucket's size, the loop of `kmalloc` ends for every request, at the
  -- least bucket whose blocks hold the request with its header, and at the return of NULL exactly
  -- where no bucket's blocks do.
  pub choose_bucket-Chosen :
      (nbytes : ℕ)
      → (r : Option ℕ) × (choose_bucket pagesz pagebucket nbytes ≡ some r) × Chosen pagesz nbytes r
  unfolding choose_bucket
  choose_bucket-Chosen nbytes = elim (dec_le nbytes (pagesz - overhead_size)) [
    | yes small ↦
        let (r, e, found) =
          size_loop-Found_at bucket_size nbytes (sub64 0 overhead_size) small_room 8 0
            (sym bucket_size-first) (omega arith) in
        (r, rw (rest, le→leb _ _ small) e, small-Chosen nbytes r small found)
    | no large ↦
        let (r, e, found) =
          size_loop-Found_at (λ c. bucket_size c + pagesz) nbytes (pagesz - overhead_size)
            large_room pagesz pagebucket page.shape (omega (arith, page.small)) in
        (
          r,
          rw (rest, lt→not_leb nbytes (pagesz - overhead_size) (omega arith)) e,
          large-Chosen nbytes r (omega arith) found,
        )
  ]

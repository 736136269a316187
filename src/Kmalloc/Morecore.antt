-- ===== src/Kmalloc/Morecore.antt =====
-- `morecore` of kmalloc/original/kmalloc.c, on a well-formed heap.
use native.Mathlib.Nat.{div-mul-le_self, lt-div-mul-add}
use challenges.Common.{
  ℕ, suc, ◌+◌, ◌-◌, ◌*◌, ◌/◌, ◌%◌, ◌≤◌, ◌<◌, ◌≡◌, ◌≢◌, refl, ◌∙◌, sym, subst, ◌==◌, ◌⊎◌, inl, inr,
  arith, ltb, false, some, Bool-cases, ==_refl, ==-ne, ltb→lt, dec_lt,
}
use challenges.Memory.{Mem}
use challenges.Memory.Words.{shift_one, is_negative, minus_one}
use challenges.Kmalloc.{
  Os, IsOs, Heap, nbuckets, update, morecore, extend, carve, more_amount, more_blocks,
}
use challenges.Kmalloc.Buckets.{
  bucket_size, bucket_size-ge, bucket_size-le, shift_one-lt, block_size, block_size-ge, last_bucket,
  bucket_size-even, block_size-even,
}
use challenges.Kmalloc.Layout.{unowned, used_block, Owners, Chain, Chain-frame, IsUsed, IsHeap}
use challenges.Kmalloc.Layout.Switch.{IsUsed-frame}
use challenges.Kmalloc.Carve.{
  span, span-mul, carve_owners, carve_owners-below, carve_owners-above, carve_owners-used, IsRoom,
  carve-below, carve-above, carve-IsBytes, carve-Chain, carve-zero,
}

whole_blocks : (page size : ℕ) → 0 < size → size < page → suc (page / size - 1) * size ≤ page
whole_blocks page size pos lt =
    subst (λ k. k * size ≤ page) (omega (arith, at_least_one)) (div-mul-le_self page size)
  where
    at_least_one : 1 ≤ page / size
    at_least_one = grind (arith, lt-div-mul-add {a = page} {b = size} pos)

module _ {W : Type 0} (os : Os W) {brk : W → ℕ} (is_os : IsOs os brk) {h : Heap W} {ow : Owners}
    {len : ℕ → ℕ} (inv : IsHeap brk h ow len) (b : ℕ) (le : b ≤ last_bucket)
    (empty : h.nextf b ≡ 0) where
  -- Blocks of the size of bucket `b`, cut from the `amt` bytes that start at the break.
  module _ (count amt : ℕ) (w : W) (moved : brk w ≡ brk h.world + amt) (even : amt % 8 ≡ 0)
      (fits : span (block_size h.pagesz b) count ≤ amt) (lt : b < last_bucket) where
    abbrev pub size : ℕ
    size = block_size h.pagesz b

    abbrev pub op : ℕ
    op = brk h.world

    abbrev pub grown : Heap W
    grown = record h { mem = carve count size h.mem op; nextf = update h.nextf b op; world = w }

    abbrev pub owners_after : Owners
    owners_after = carve_owners ow b size count op

    room : IsRoom size count op
    room = record {
      not_null = omega (arith, inv.brk_pos);
      aligned = inv.brk_aligned;
      even = block_size-even inv.page b;
      below = omega (arith, is_os.brk-lt w);
      big = omega (arith, block_size-ge inv.page b, bucket_size-ge b);
    }

    -- A byte that a block owns lies below the break, so it keeps its value and its owner.
    spares :
        (x : ℕ) → ow x ≢ unowned → (carve count size h.mem op x ≡ h.mem x) × (owners_after x ≡ ow x)
    spares x owned = elim (dec_lt x op) [
      | yes below ↦ (
        carve-below {count = count} h.mem x room below,
        carve_owners-below ow b size count op x below,
      )
      | no above ↦ absurd (owned (inv.above x (omega arith)).0)
    ]

    new-Chain :
        Chain h.pagesz grown.mem owners_after b (update len b (suc count) b) (update h.nextf b op b)
    new-Chain = rw (==_refl b) (
        carve-Chain inv.page ow b count op h.mem room (λ x l. (inv.above x l).0)
          (λ x l. (inv.above x l).1))

    grown-chains :
        (c : ℕ)
        → c < nbuckets
        → Chain h.pagesz grown.mem owners_after c
            (update len b (suc count) c)
            (update h.nextf b op c)
    grown-chains c lt = elim (Bool-cases (c == b)) [
      | inl e ↦
          let e' : c ≡ b = ground arith in
          subst
            (λ k.
              Chain h.pagesz grown.mem owners_after k (update len b (suc count) k)
                (update h.nextf b op k))
            (sym e') new-Chain
      | inr ne ↦ rw ne (
          Chain-frame inv.page h.mem grown.mem ow owners_after c (len c) (h.nextf c)
            (λ x q k e lt. spares x (λ s. cc)) (inv.chains c lt))
    ]

    grown-IsUsed :
        (x q c : ℕ) → owners_after x ≡ used_block q c → IsUsed h.pagesz grown.mem owners_after q c
    grown-IsUsed x q c e =
        IsUsed-frame (omega (arith, block_size-ge inv.page c, bucket_size-ge c))
          (λ y f. spares y (λ s. cc))
          (inv.used x q c (carve_owners-used ow b size count op x q c e))

    pub grown-IsHeap : IsHeap brk grown owners_after (update len b (suc count))
    grown-IsHeap = record {
      bytes = carve-IsBytes count size op inv.bytes;
      page = inv.page;
      chains = grown-chains;
      used = grown-IsUsed;
      inside = λ x q c e. inv.inside x q c (carve_owners-used ow b size count op x q c e);
      above = λ x l. (
        carve_owners-above ow b size count op x (omega arith) ∙ (inv.above x (omega arith)).0,
        carve-above {count = count} h.mem x room (omega arith) ∙ (inv.above x (omega arith)).1,
      );
      top = λ c l. rw (==-ne c b (λ s. absurd (omega arith))) (inv.top c l);
      brk_aligned = omega (arith, inv.brk_aligned);
      brk_pos = omega (arith, inv.brk_pos);
    }

  abbrev pub sz : ℕ
  sz = bucket_size b

  -- What `sbrk` answers.
  abbrev pub asked : ℕ × W
  asked = os.sbrk h.world (more_amount os h.pagesz sz)

  -- There is no more memory, or bucket `b` has free blocks.
  abbrev pub Grown : Heap W → Type 0
  Grown h' =
      (h'.pagesz ≡ h.pagesz)
      × ((h'.nextf b ≡ 0)
            × ((b ≡ last_bucket) ⊎ (asked.0 ≡ minus_one))
            × IsHeap brk h' ow len
            × ((x : ℕ) → h'.mem x ≡ h.mem x)
          ⊎ ((ow' : Owners) × (n : ℕ) × IsHeap brk h' ow' (update len b (suc n))
              × ((x : ℕ) → ow x ≢ unowned → (h'.mem x ≡ h.mem x) × (ow' x ≡ ow x))))

  refused : (w : W) → brk w ≡ brk h.world → IsHeap brk (record h { world = w }) ow len
  refused w e = record {
    bytes = inv.bytes;
    page = inv.page;
    chains = inv.chains;
    used = inv.used;
    inside = inv.inside;
    above = λ x l. inv.above x (omega arith);
    top = inv.top;
    brk_aligned = omega (arith, inv.brk_aligned);
    brk_pos = omega (arith, inv.brk_pos);
  }

  -- For the last bucket `sz` is negative, and nothing is asked for.
  morecore-last : b ≡ last_bucket → morecore os b h ≡ some h
  unfolding morecore shift_one is_negative
  morecore-last e = rw e

  morecore-extend : b < last_bucket → morecore os b h ≡ some (extend os b sz h)
  unfolding morecore is_negative
  morecore-extend lt =
      rw (shift_one-lt b lt) (ground (arith, bucket_size-ge b, bucket_size-le b le))

  amount_even : more_amount os h.pagesz sz % 8 ≡ 0
  amount_even = ground (arith, inv.page.shape, bucket_size-even b, bucket_size-even h.pagebucket)

  -- The blocks fit into what is asked for, whether they are many in a page or a single one.
  amount_fits :
      span (block_size h.pagesz b) (more_blocks os h.pagesz sz - 1) ≤ more_amount os h.pagesz sz
  unfolding block_size
  amount_fits = elim (Bool-cases (ltb sz h.pagesz)) [
    | inl small ↦
        rw (small, span-mul)
          (whole_blocks h.pagesz sz (omega (arith, bucket_size-ge b)) (ltb→lt sz h.pagesz small))
    | inr big ↦ rw (big, span-mul) (omega arith)
  ]

  -- The chunks are cut at the blocks' own size.
  amount_size :
      (m : Mem) (op : ℕ)
      → carve (more_blocks os h.pagesz sz - 1) sz m op
        ≡ carve (more_blocks os h.pagesz sz - 1) (block_size h.pagesz b) m op
  unfolding block_size
  amount_size m op = elim (Bool-cases (ltb sz h.pagesz)) [
    | inl small ↦ rw small
    | inr big ↦ rw (big, carve-zero) (sym (carve-zero _ m op))
  ]

  extend-grown :
      (lt : b < last_bucket) (e : asked.0 ≡ brk h.world)
      (moved : brk asked.1 ≡ brk h.world + more_amount os h.pagesz sz)
      → extend os b sz h
        ≡ grown
            (more_blocks os h.pagesz sz - 1)
            (more_amount os h.pagesz sz)
            asked.1
            moved
            amount_even
            amount_fits
            lt
  unfolding extend
  extend-grown lt e moved = rw (e, unbounded, amount_size)
    where
      unbounded : (brk h.world == minus_one) ≡ false
      unbounded = ground (arith, is_os.brk-lt h.world)

  extend-refused : asked.0 ≡ minus_one → extend os b sz h ≡ record h { world = asked.1 }
  unfolding extend
  extend-refused e = rw e

  -- On a well-formed heap whose bucket is empty `morecore` puts one or more free blocks into it,
  -- or leaves it empty because the bucket is the last one or `sbrk` fails; the heap stays well
  -- formed and no byte of a block changes.
  pub morecore-Grown : (h' : Heap W) × (morecore os b h ≡ some h') × Grown h'
  morecore-Grown = elim (dec_lt b last_bucket) [
    | yes lt ↦ (extend os b sz h, morecore-extend lt, extended lt)
    | no last ↦
        (h, morecore-last (omega arith), (refl, inl (empty, inl (omega arith), inv, λ x. refl)))
  ]
    where
      extended : b < last_bucket → Grown (extend os b sz h)
      extended lt = elim (is_os.sbrk-cases h.world (more_amount os h.pagesz sz)) [
        | inl (e, moved) ↦ subst Grown (sym (extend-grown lt e moved)) (
          refl,
          inr (
            owners_after _ _ _ moved amount_even amount_fits lt,
            more_blocks os h.pagesz sz - 1,
            grown-IsHeap _ _ _ moved amount_even amount_fits lt,
            spares _ _ _ moved amount_even amount_fits lt,
          ),
        )
        | inr (e, same) ↦
            subst Grown (sym (extend-refused e))
              (refl, inl (empty, inr e, refused asked.1 same, λ x. refl))
      ]

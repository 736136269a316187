-- ===== src/Kmalloc/Reuse.antt =====
-- `kmalloc` after `kfree`, and `kmalloc_usable_size`, of kmalloc/original/kmalloc.c.
use challenges.Common.{
  ◌⊎◌, inl, inr, ℕ_discrete, ℕ, zero, suc, ◌+◌, ◌-◌, ◌<◌, ◌≡◌, ap, ◌==◌, false, some, arith,
  ==_refl, ==-ne, lt→not_leb, ◌>>=◌,
}
use challenges.Memory.{null}
use challenges.Memory.Words.{add64_of_lt}
use challenges.Kmalloc.{
  Os, Heap, overhead_size, nbuckets, kmalloc, serve, obtain_block, take_block, kfree,
  kmalloc_usable_size,
}
use challenges.Kmalloc.Buckets.{
  bucket_size, bucket_size-suc', bucket_size-ge, block_size, block_size-ge, pagesz-ge,
}
use challenges.Kmalloc.Buckets.Choice.{Chosen, Chosen-unique, choose_bucket-Chosen}
use challenges.Kmalloc.Layout.{used_block, Owners, IsUsed, IsHeap}
use challenges.Kmalloc.Free.{data_of, header_of, small, freed, kfree-IsHeap}

room : (b : ℕ) → 0 < b → b + overhead_size < bucket_size b
room zero pos = absurd (omega arith)
room (suc zero) pos = omega (arith, bucket_size-suc' 0, bucket_size-ge 0)
room (suc (suc k)) pos = omega (arith, bucket_size-suc' (suc k), room (suc k) (omega arith))

module _ {W : Type 0} (os : Os W) {brk : W → ℕ} {h : Heap W} {ow : Owners} {len : ℕ → ℕ}
    (inv : IsHeap brk h ow len) (a b : ℕ) (e : ow a ≡ used_block a b) where
  u : IsUsed h.pagesz h.mem ow a b
  u = inv.used a a b e

  obtain-freed : obtain_block os b (freed h a b) ≡ some (take_block os b (freed h a b))
  unfolding obtain_block
  obtain-freed =
      let nonnull : ((freed h a b).nextf b == null) ≡ false =
        rw (==_refl b) (==-ne a null (u.place).not_null) in
      rw (lt→not_leb nbuckets b (omega (arith, u.bucket)), nonnull)

  pointer : (take_block os b (freed h a b)).0 ≡ data_of a
  unfolding take_block
  pointer = rw (==_refl b) (add64_of_lt a overhead_size (small inv a b e))

  -- On a well-formed heap a request that the bucket of a block in use serves, made right after
  -- `kfree` of that block, is answered with the same pointer.
  pub kmalloc-kfree :
      (nbytes : ℕ)
      → Chosen h.pagesz nbytes (some b)
      → (h' : Heap W) × ((kfree (data_of a) h >>= kmalloc os nbytes) ≡ some (data_of a, h'))
  unfolding kmalloc serve
  kmalloc-kfree nbytes chosen =
      let (r, c, found) = choose_bucket-Chosen inv.page nbytes in
      let at_b : r ≡ some b = Chosen-unique h.pagesz nbytes r found chosen in
      let page : (h.pagesz == 0) ≡ false =
        ==-ne h.pagesz 0 (λ z. absurd (omega (arith, pagesz-ge inv.page))) in
      (
        (take_block os b (freed h a b)).1,
        rw ((kfree-IsHeap inv a b e).0, page, c, at_b, obtain-freed)
            (ap (λ p. some (p, (take_block os b (freed h a b)).1)) pointer),
      )

  kmalloc_usable_size-marked : kmalloc_usable_size (data_of a) h ≡ b
  unfolding kmalloc_usable_size
  kmalloc_usable_size-marked =
      let there : (data_of a == null) ≡ false = ground arith in
      rw (header_of a (small inv a b e), there, u.marked, u.index)

  -- On a well-formed heap `kmalloc_usable_size` of a block in use is the number of the block's
  -- bucket, which is less than what the block holds for every bucket but the first.
  pub usable_size-bucket :
      (kmalloc_usable_size (data_of a) h ≡ b)
      × ((b ≡ 0) ⊎ (kmalloc_usable_size (data_of a) h < block_size h.pagesz b - overhead_size))
  usable_size-bucket = (
    kmalloc_usable_size-marked,
    elim (ℕ_discrete b 0) [
      | yes first ↦ inl first
      | no later ↦
          let pos : 0 < b = ground (arith, later) in
          inr (omega (arith, kmalloc_usable_size-marked, block_size-ge inv.page b, room b pos))
    ],
  )

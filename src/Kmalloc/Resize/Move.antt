-- ===== src/Kmalloc/Resize/Move.antt =====
-- `krealloc` (kmalloc/original/kmalloc.c) on a block in use: it stays, or its contents move.
use challenges.Common.{
  ℕ, suc, ◌+◌, ◌-◌, ◌<◌, ◌≡◌, ◌≢◌, ◌∙◌, false, some, ◌==◌, ◌⊎◌, inl, inr, if◌then◌else◌, arith,
  ◌>>=◌,
}
use challenges.Memory.{null}
use challenges.Memory.Laws.{store_pointer-Outside}
use challenges.Kmalloc.{Os, IsOs, Heap, overhead_size, update, kfree}
use challenges.Kmalloc.Buckets.{block_size}
use challenges.Kmalloc.Buckets.Choice.{Chosen}
use challenges.Kmalloc.Layout.{free_block, used_block, Owners, claim, IsUsed, IsHeap}
use challenges.Kmalloc.Layout.Switch.{claim_self}
use challenges.Kmalloc.Free.{freed-spares, data_of, header_of, small, freed, kfree-IsHeap}
use challenges.Kmalloc.Serve.{IsFresh}
use challenges.Kmalloc.Resize.{krealloc, stays, move}
use challenges.Kmalloc.Resize.InPlace.{old_size-block, stays-Chosen}
use challenges.Kmalloc.Resize.Copy.{move-IsCopied}

-- `res` is a new block with the first bytes of the old one, as many as both hold, or NULL; the old
-- block has been freed, and nothing else in use has changed.
pub record IsMoved {W : Type 0} (os : Os W) (brk : W → ℕ) (h : Heap W) (ow : Owners) (len : ℕ → ℕ)
    (a b nbytes res : ℕ) (h' : Heap W) : Type 0 where
  pub owners : Owners
  pub lengths : ℕ → ℕ
  pub heap : IsHeap brk h' owners lengths
  pub same_page : h'.pagesz ≡ h.pagesz
  pub keeps :
      (x q c : ℕ)
      → ow x ≡ used_block q c
      → q ≢ a
      → (h'.mem x ≡ h.mem x) × (owners x ≡ used_block q c)
  pub answer :
      (IsFresh h.pagesz
          (claim ow a (block_size h.pagesz b) (free_block a b (len b)))
          owners
          nbytes
          res
        × ((i : ℕ)
            → i < nbytes
            → i < block_size h.pagesz b - overhead_size
            → h'.mem (res + i) ≡ h.mem (data_of a + i)))
      ⊎ (res ≡ null)

module _ {W : Type 0} (os : Os W) {brk : W → ℕ} (is_os : IsOs os brk) (fuel srchlen : ℕ)
    {h : Heap W} {ow : Owners} {len : ℕ → ℕ} (inv : IsHeap brk h ow len) {a b : ℕ}
    (e : ow a ≡ used_block a b) (nbytes : ℕ) (pos : 0 < nbytes) where
  u : IsUsed h.pagesz h.mem ow a b
  u = inv.used a a b e

  abbrev onb : ℕ
  onb = block_size h.pagesz b - overhead_size

  -- What is left once the header is read.
  krealloc-used : krealloc os fuel srchlen (data_of a) nbytes h ≡ (
      if stays h.pagesz b onb nbytes
      then some (data_of a, h)
      else (kfree (data_of a) h >>= move os (data_of a) nbytes onb))
  unfolding krealloc
  krealloc-used =
      let there : (data_of a == null) ≡ false = ground arith in
      let some_bytes : (nbytes == 0) ≡ false = ground arith in
      rw (
        header_of a (small inv a b e),
        there,
        some_bytes,
        u.marked,
        u.index,
        old_size-block inv.page b u.bucket,
      )

  -- On a well-formed heap `krealloc` of a block in use to a size above 0 that its own bucket
  -- serves returns the same pointer and changes nothing.
  pub krealloc-stays :
      Chosen h.pagesz nbytes (some b)
      → krealloc os fuel srchlen (data_of a) nbytes h ≡ some (data_of a, h)
  krealloc-stays chosen =
      krealloc-used ∙ rw ((stays-Chosen inv.page b nbytes u.bucket pos).1 chosen)

  abbrev owners_freed : Owners
  owners_freed = claim ow a (block_size h.pagesz b) (free_block a b (len b))

  abbrev lengths_freed : ℕ → ℕ
  lengths_freed = update len b (suc (len b))

  freed-IsHeap : IsHeap brk (freed h a b) owners_freed lengths_freed
  freed-IsHeap = (kfree-IsHeap inv a b e).1

  -- What `move` does once the old block is free.
  move-IsMoved :
      (res : ℕ) × (h' : Heap W) × (move os (data_of a) nbytes onb (freed h a b) ≡ some (res, h'))
      × IsMoved os brk h ow len a b nbytes res h'
  move-IsMoved =
      let (res, h', e', c) =
        move-IsCopied os is_os freed-IsHeap a b (len b)
          (claim_self ow a (block_size h.pagesz b) (free_block a b (len b))) nbytes in
      (
        res,
        h',
        e',
        record {
          owners = c.owners;
          lengths = c.lengths;
          heap = c.heap;
          same_page = c.same_page;
          keeps = λ x q d f ne.
              let (m, o) = freed-spares inv a b e x q d f ne in
              let (m', o') = c.keeps x q d o in (m' ∙ m, o');
          answer = elim c.answer [
            | inr none_left ↦ inr none_left
            | inl (fresh, contents) ↦ inl (
              fresh,
              λ i l r.
                  contents i l r
                  ∙ store_pointer-Outside h.mem a (h.nextf b) (data_of a + i) (inr (omega arith)),
            )
          ];
        },
      )

  -- On a well-formed heap `krealloc` of a block in use to a size above 0 that the block is not
  -- kept for returns a block that begins with the old contents, as far as both reach, and that
  -- was free once the old one had been freed, or it returns NULL; the heap stays well formed and
  -- no other block in use changes.
  pub krealloc-IsMoved :
      stays h.pagesz b onb nbytes ≡ false
      → (res : ℕ) × (h' : Heap W) × (krealloc os fuel srchlen (data_of a) nbytes h ≡ some (res, h'))
        × IsMoved os brk h ow len a b nbytes res h'
  krealloc-IsMoved goes = rw (krealloc-used, goes, (kfree-IsHeap inv a b e).0) move-IsMoved

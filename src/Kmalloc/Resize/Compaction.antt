-- ===== src/Kmalloc/Resize/Compaction.antt =====
-- `krealloc` of kmalloc/original/kmalloc.c on a block that is free already.
use challenges.Common.{
  ℕ, zero, suc, ◌+◌, ◌-◌, ◌%◌, ◌≤◌, ◌<◌, ◌≡◌, refl, false, some, ◌==◌, ==-ne, arith, dec_lt,
}
use challenges.Memory.{Mem, IsBytes, null, load_pointer, load_bytes}
use challenges.Kmalloc.{Os, IsOs, Heap, overhead_size, magic}
use challenges.Kmalloc.Buckets.{block_size, block_size-ge, bucket_size-ge, last_bucket}
use challenges.Kmalloc.Layout.{free_block, Owners, Owns, IsPlace, Chain, IsHeap}
use challenges.Kmalloc.Free.{data_of, header_of}
use challenges.Kmalloc.Resize.{krealloc, free_bucket, move}
use challenges.Kmalloc.Resize.InPlace.{old_size-block}
use challenges.Kmalloc.Resize.Copy.{IsCopied, move-IsCopied}
use challenges.Kmalloc.Resize.Search.{nth_free, Chain-nth, free_bucket-found}

-- The lowest byte of a pointer lies at its own address.
load_pointer-low : (m : Mem) (p : ℕ) → IsBytes m → load_pointer m p % 256 ≡ m p
unfolding load_pointer load_bytes
load_pointer-low m p bytes = omega (arith, bytes p)

module _ {W : Type 0} (os : Os W) {brk : W → ℕ} (is_os : IsOs os brk) (fuel srchlen : ℕ)
    {h : Heap W} {ow : Owners} {len : ℕ → ℕ} (inv : IsHeap brk h ow len) (b d : ℕ) (low : d < len b)
    (near : d < srchlen) (enough : srchlen + 1 < fuel) (nbytes : ℕ) (pos : 0 < nbytes) where
  abbrev a : ℕ
  a = nth_free h.mem (h.nextf b) d

  abbrev onb : ℕ
  onb = block_size h.pagesz b - overhead_size

  -- The last bucket has no blocks.
  bucket : b < last_bucket
  bucket = elim (dec_lt b last_bucket) [
    | yes below ↦ below
    | no above ↦ absurd (omega (arith, low, inv.top b (omega (arith, above))))
  ]

  block :
      (rank : ℕ) × IsPlace h.pagesz b a
      × Owns ow a (block_size h.pagesz b) (free_block a b rank)
      × Chain h.pagesz h.mem ow b rank (load_pointer h.mem a)
  block =
      Chain-nth inv.page h.mem ow b (len b) d (h.nextf b) (inv.chains b (omega (arith, bucket))) low

  -- The link of a free block does not look like the magic number.
  aligned :
      (rank : ℕ)
      → Chain h.pagesz h.mem ow b rank (load_pointer h.mem a)
      → load_pointer h.mem a % 8 ≡ 0
  aligned zero chain = omega (arith, chain)
  aligned (suc rank) (place, own, rest) = place.aligned

  krealloc-free : krealloc os fuel srchlen (data_of a) nbytes h ≡ move os (data_of a) nbytes onb h
  unfolding krealloc
  krealloc-free =
      let (rank, place, own, rest) = block in
      let size : overhead_size ≤ block_size h.pagesz b =
        omega (arith, block_size-ge inv.page b, bucket_size-ge b) in
      let there : (data_of a == null) ≡ false =
        ==-ne (data_of a) null (λ z. absurd (omega (arith, z))) in
      let some_bytes : (nbytes == 0) ≡ false =
        ==-ne nbytes 0 (λ z. absurd (omega (arith, z, pos))) in
      let unmarked : (h.mem a == magic) ≡ false =
        ==-ne (h.mem a) magic
          (λ z. absurd (omega (arith, load_pointer-low h.mem a inv.bytes, aligned rank rest, z))) in
      let found : free_bucket os fuel srchlen h a ≡ some b =
        free_bucket-found inv a b rank fuel (own a (omega arith) (omega (arith, size))) d srchlen
          (omega (arith, enough)) refl low near (omega (arith, bucket)) os
          (omega (arith, near, enough)) in
      rw
        (
          header_of a (omega (arith, place.below, size)),
          there,
          some_bytes,
          unmarked,
          found,
          old_size-block inv.page b bucket,
        )
        refl

  -- On a well-formed heap, `krealloc` to a size above 0 of a free block that stands among the
  -- first `srchlen` of its list, whichever list that is, finds the block's bucket, with fuel for
  -- two blocks more than that; it returns a block that begins with the free block's contents, as
  -- far as both reach, and that was not in use, or it returns NULL; the heap stays well formed
  -- and no block in use changes.
  pub krealloc-compaction :
      (res : ℕ) × (h' : Heap W) × (krealloc os fuel srchlen
          (data_of (nth_free h.mem (h.nextf b) d))
          nbytes
          h
        ≡ some (res, h'))
      × IsCopied os brk h ow (nth_free h.mem (h.nextf b) d) b nbytes res h'
  krealloc-compaction =
      let (rank, place, own, rest) = block in
      rw krealloc-free (move-IsCopied os is_os inv a b rank own nbytes)

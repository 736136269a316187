-- ===== src/Kmalloc/Resize/Copy.antt =====
-- The end of `krealloc` (kmalloc/original/kmalloc.c): a new block with the contents of a free one.
use challenges.Common.{
  ℕ, ◌+◌, ◌-◌, ◌≤◌, ◌<◌, ◌≡◌, ◌∙◌, subst, true, false, some, ltb, ◌==◌, ◌⊎◌, inl, inr,
  if◌then◌else◌, arith, Bool-cases, ==_iff,
}
use challenges.Memory.{Mem, IsBytes, null, within, copy_bytes}
use challenges.Kmalloc.{Os, IsOs, Heap, overhead_size, kmalloc}
use challenges.Kmalloc.Buckets.{block_size, block_size-ge, bucket_size-ge}
use challenges.Kmalloc.Layout.{free_block, Owners, Owns, IsHeap}
use challenges.Kmalloc.Layout.Payload.{IsPayload, payload-IsHeap}
use challenges.Kmalloc.Free.{data_of}
use challenges.Kmalloc.Serve.{Keeps, IsFresh, IsServed}
use challenges.Kmalloc.First.{kmalloc-IsServed}
use challenges.Kmalloc.Resize.{move}

copy_bytes-IsBytes : {m : Mem} (src dst n : ℕ) → IsBytes m → IsBytes (copy_bytes m src dst n)
unfolding copy_bytes
copy_bytes-IsBytes src dst n h a = ground (arith, h a, h (src + (a - dst)))

copy_bytes-inside :
    (m : Mem) (src dst n i : ℕ) → i < n → copy_bytes m src dst n (dst + i) ≡ m (src + i)
unfolding copy_bytes
copy_bytes-inside m src dst n i h = rw (test, index)
  where
    test : within dst n (dst + i) ≡ true
    test = ground arith

    index : dst + i - dst ≡ i
    index = omega arith

copy_bytes-outside :
    (m : Mem) (src dst n x : ℕ) → within dst n x ≡ false → copy_bytes m src dst n x ≡ m x
unfolding copy_bytes
copy_bytes-outside m src dst n x h = rw h

-- `res` is a new block that begins with the contents of the free block at `a`, as far as both reach,
-- or NULL; nothing in use has changed.
pub record IsCopied {W : Type 0} (os : Os W) (brk : W → ℕ) (h : Heap W) (ow : Owners)
    (a b nbytes res : ℕ) (h' : Heap W) : Type 0 where
  pub owners : Owners
  pub lengths : ℕ → ℕ
  pub heap : IsHeap brk h' owners lengths
  pub same_page : h'.pagesz ≡ h.pagesz
  pub keeps : Keeps h h' ow owners
  pub answer :
      (IsFresh h.pagesz ow owners nbytes res
        × ((i : ℕ)
            → i < nbytes
            → i < block_size h.pagesz b - overhead_size
            → h'.mem (res + i) ≡ h.mem (data_of a + i)))
      ⊎ (res ≡ null)

module _ {W : Type 0} (os : Os W) {brk : W → ℕ} (is_os : IsOs os brk) {h : Heap W} {ow : Owners}
    {len : ℕ → ℕ} (inv : IsHeap brk h ow len) (a b rank : ℕ)
    (free : Owns ow a (block_size h.pagesz b) (free_block a b rank)) (nbytes : ℕ) where
  abbrev onb : ℕ
  onb = block_size h.pagesz b - overhead_size

  big : overhead_size ≤ block_size h.pagesz b
  big = omega (arith, block_size-ge inv.page b, bucket_size-ge b)

  module _ {res : ℕ} {h2 : Heap W} (s : IsServed os brk h ow nbytes res h2) where
    -- The contents survive `kmalloc`.
    contents : (i : ℕ) → i < onb → h2.mem (data_of a + i) ≡ h.mem (data_of a + i)
    contents i lt =
        s.frees (data_of a + i) a b rank
          (free (data_of a + i) (omega arith) (omega (arith, big, lt))) (omega arith)

    abbrev n : ℕ
    n = if ltb nbytes onb then nbytes else onb

    abbrev copied : Heap W
    copied = record h2 { mem = copy_bytes h2.mem (data_of a) res n }

    module _ (fresh : IsFresh h.pagesz ow s.owners nbytes res) where
      copied-writes : (x : ℕ) → (copied.mem x ≡ h2.mem x) ⊎ IsPayload s.owners x
      copied-writes x = elim (Bool-cases (within res n x)) [
        | inl i ↦ inr (
          fresh.start,
          fresh.bucket,
          fresh.owns x (ground arith) (ground (arith, fresh.holds)),
          ground arith,
        )
        | inr out ↦ inl (copy_bytes-outside h2.mem (data_of a) res n x out)
      ]

      copied-IsHeap : IsHeap brk copied s.owners s.lengths
      copied-IsHeap =
          payload-IsHeap s.heap copied.mem (copy_bytes-IsBytes (data_of a) res n s.heap.bytes)
            copied-writes

      copied-Keeps : Keeps h copied ow s.owners
      copied-Keeps x q c f = elim (Bool-cases (within res n x)) [
        | inl i ↦ absurd (fresh.unused x q c (ground arith) (ground (arith, fresh.holds)) f)
        | inr out ↦
            let (m, o) = s.keeps x q c f in
            (copy_bytes-outside h2.mem (data_of a) res n x out ∙ m, o)
      ]

      -- `move` after a successful `kmalloc`, whether or not the block is the old one.
      moved : Heap W
      moved = if data_of a == res then h2 else copied

      fresh-IsCopied : IsCopied os brk h ow a b nbytes res moved
      unfolding moved
      fresh-IsCopied = elim (Bool-cases (data_of a == res)) [
        | inl same ↦
            let at : data_of a ≡ res = (==_iff (data_of a) res).0 same in
            rw same (record {
              owners = s.owners;
              lengths = s.lengths;
              heap = s.heap;
              same_page = s.same_page;
              keeps = s.keeps;
              answer = inl (
                fresh,
                λ i l r. subst (λ p. h2.mem (p + i) ≡ h.mem (data_of a + i)) at (contents i r),
              );
            })
        | inr other ↦ rw other (record {
          owners = s.owners;
          lengths = s.lengths;
          heap = copied-IsHeap;
          same_page = s.same_page;
          keeps = copied-Keeps;
          answer = inl (
            fresh,
            λ i l r. copy_bytes-inside h2.mem (data_of a) res n i (ground arith) ∙ contents i r,
          );
        })
      ]

      move-moved :
          kmalloc os nbytes h ≡ some (res, h2)
          → move os (data_of a) nbytes onb h ≡ some (res, moved)
      unfolding move moved
      move-moved e2 =
          let there : (res == null) ≡ false = ground (arith, fresh.pointer) in
          rw (e2, there)
            (elim (Bool-cases (data_of a == res)) [ inl same ↦ rw same | inr other ↦ rw other ])

    move-null :
        kmalloc os nbytes h ≡ some (res, h2)
        → res ≡ null
        → move os (data_of a) nbytes onb h ≡ some (res, h2)
    unfolding move
    move-null e2 none_left = rw (e2, none_left)

    null-IsCopied : res ≡ null → IsCopied os brk h ow a b nbytes res h2
    null-IsCopied none_left = record {
      owners = s.owners;
      lengths = s.lengths;
      heap = s.heap;
      same_page = s.same_page;
      keeps = s.keeps;
      answer = inr none_left;
    }

  pub move-IsCopied :
      (res : ℕ) × (h' : Heap W) × (move os (data_of a) nbytes onb h ≡ some (res, h'))
      × IsCopied os brk h ow a b nbytes res h'
  move-IsCopied =
      let (res, h2, e2, s) = kmalloc-IsServed os is_os inv nbytes in
      elim s.answer [
        | inl fresh ↦ (res, moved s fresh, move-moved s fresh e2, fresh-IsCopied s fresh)
        | inr (none_left, why) ↦ (res, h2, move-null s e2 none_left, null-IsCopied s none_left)
      ]

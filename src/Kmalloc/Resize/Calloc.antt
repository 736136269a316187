-- ===== src/Kmalloc/Resize/Calloc.antt =====
-- `kcalloc` of kmalloc/original/kmalloc.c.
use challenges.Common.{
  ℕ, ◌+◌, ◌*◌, ◌%◌, ◌^◌, ◌≤◌, ◌<◌, ◌≡◌, refl, ◌==◌, false, some, none, arith, ◌⊎◌, inl, inr,
  Bool-cases,
}
use challenges.Memory.{Mem, IsBytes, null, within, clear_bytes}
use challenges.Kmalloc.{Os, IsOs, Heap}
use challenges.Kmalloc.Buckets.{block_size, bucket_size-le, pagesz-le}
use challenges.Kmalloc.Layout.{Owners, IsHeap}
use challenges.Kmalloc.Layout.Payload.{payload-IsHeap}
use challenges.Kmalloc.Serve.{Keeps, IsFresh, IsServed, Refused}
use challenges.Kmalloc.First.{kmalloc-IsServed}
use challenges.Kmalloc.Resize.{kcalloc}

clear_bytes-IsBytes : {m : Mem} (p n : ℕ) → IsBytes m → IsBytes (clear_bytes m p n)
unfolding clear_bytes
clear_bytes-IsBytes p n h a = ground (arith, h a)

clear_bytes-inside : (m : Mem) (p n i : ℕ) → i < n → clear_bytes m p n (p + i) ≡ 0
unfolding clear_bytes
clear_bytes-inside m p n i h = ground arith

-- A new block of zeros for `total` bytes, in a heap that is well formed.
pub record IsCleared {W : Type 0} (brk : W → ℕ) (h : Heap W) (ow : Owners) (total p : ℕ)
    (h' : Heap W) : Type 0 where
  pub owners : Owners
  pub lengths : ℕ → ℕ
  pub heap : IsHeap brk h' owners lengths
  pub same_page : h'.pagesz ≡ h.pagesz
  pub keeps : Keeps h h' ow owners
  pub fresh : IsFresh h.pagesz ow owners total p
  pub zeros : (i : ℕ) → i < total → h'.mem (p + i) ≡ 0

module _ {W : Type 0} (os : Os W) {brk : W → ℕ} (is_os : IsOs os brk) {h : Heap W} {ow : Owners}
    {len : ℕ → ℕ} (inv : IsHeap brk h ow len) (nelem elsize : ℕ) where
  abbrev pub total : ℕ
  total = nelem * elsize % 2 ^ 64

  cleared :
      {p : ℕ} {h' : Heap W} (s : IsServed os brk h ow total p h')
      → IsFresh h.pagesz ow s.owners total p
      → IsCleared brk h ow total p (record h' { mem = clear_bytes h'.mem p total })
  unfolding clear_bytes
  cleared {p} {h'} s fresh = record {
    owners = s.owners;
    lengths = s.lengths;
    heap =
        payload-IsHeap s.heap (clear_bytes h'.mem p total)
          (clear_bytes-IsBytes p total s.heap.bytes)
          (λ x. elim (Bool-cases (within p total x)) [
            | inl i ↦ inr (
              fresh.start,
              fresh.bucket,
              fresh.owns x (ground arith) (ground (arith, fresh.holds)),
              ground arith,
            )
            | inr out ↦ inl (rw out)
          ]);
    same_page = s.same_page;
    keeps = λ x q c f. elim (Bool-cases (within p total x)) [
      | inl i ↦ absurd (fresh.unused x q c (ground arith) (ground (arith, fresh.holds)) f)
      | inr out ↦ let (m, o) = s.keeps x q c f in (rw out m, o)
    ];
    fresh = fresh;
    zeros = clear_bytes-inside h'.mem p total;
  }

  -- On a well-formed heap `kcalloc` returns a new block of zeros for the product of its arguments
  -- modulo 2 ^ 64, and the heap stays well formed; or, exactly where `kmalloc` has no block for
  -- that product, it writes through NULL.
  pub kcalloc-IsCleared :
      ((p : ℕ) × (h' : Heap W) × (kcalloc os nelem elsize h ≡ some (p, h'))
        × IsCleared brk h ow total p h')
      ⊎ ((kcalloc os nelem elsize h ≡ none) × Refused os brk h total)
  unfolding kcalloc
  kcalloc-IsCleared =
      let (p, h', e, s) = kmalloc-IsServed os is_os inv total in
      rw e (elim s.answer [
        | inl fresh ↦
            let there : (p == null) ≡ false = ground (arith, fresh.pointer) in
            rw there
              (inl (p, record h' { mem = clear_bytes h'.mem p total }, refl, cleared s fresh))
        | inr (none_left, why) ↦ rw none_left (inr (refl, why))
      ])

  -- Where the product does not fit 64 bits, the block is smaller than the array that was asked for.
  pub kcalloc-short :
      2 ^ 64 ≤ nelem * elsize
      → {p : ℕ} {h' : Heap W} → (c : IsCleared brk h ow total p h')
      → block_size h.pagesz (c.fresh).bucket < nelem * elsize
  unfolding block_size
  kcalloc-short big c =
      ground (arith, bucket_size-le (c.fresh).bucket ((c.fresh).holds).1, pagesz-le inv.page)

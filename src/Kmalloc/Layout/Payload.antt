-- ===== src/Kmalloc/Layout/Payload.antt =====
-- The writes of the program into its blocks, on the heap of kmalloc/original/kmalloc.c.
use challenges.Common.{ℕ, ◌+◌, ◌≤◌, ◌<◌, ◌≡◌, refl, ◌∙◌, ◌⊎◌, inl, inr, arith}
use challenges.Memory.{Mem, IsBytes}
use challenges.Kmalloc.{Heap, overhead_size}
use challenges.Kmalloc.Buckets.{block_size-ge, bucket_size-ge}
use challenges.Kmalloc.Layout.{used_block, Owners, Chain-frame, IsUsed, IsHeap}

-- The byte at `x` belongs to the program: it lies behind the header of a block in use.
abbrev pub IsPayload : Owners → ℕ → Type 0
IsPayload ow x = (q : ℕ) × (c : ℕ) × (ow x ≡ used_block q c) × (q + overhead_size ≤ x)

module _ {W : Type 0} {brk : W → ℕ} {h : Heap W} {ow : Owners} {len : ℕ → ℕ}
    (inv : IsHeap brk h ow len) (m : Mem) (bytes : IsBytes m)
    (writes : (x : ℕ) → (m x ≡ h.mem x) ⊎ IsPayload ow x) where
  header_kept :
      (x : ℕ) → ((q c : ℕ) → ow x ≡ used_block q c → x < q + overhead_size) → m x ≡ h.mem x
  header_kept x out = elim (writes x) [
    | inl same ↦ same
    | inr (q, c, e, l) ↦ absurd (omega (arith, out q c e))
  ]

  header_of_used :
      {a b : ℕ}
      → IsUsed h.pagesz h.mem ow a b
      → (x q c : ℕ) → a ≤ x
      → x < a + overhead_size
      → ow x ≡ used_block q c
      → x < q + overhead_size
  header_of_used {a} {b} u x q c l r e =
      let own = u.owns x l (omega (arith, block_size-ge inv.page b, bucket_size-ge b)) in
      let start : a ≡ q = cc in omega arith

  kept-IsUsed : {a b : ℕ} → IsUsed h.pagesz h.mem ow a b → IsUsed h.pagesz m ow a b
  kept-IsUsed {a} {b} u = record {
    place = u.place;
    bucket = u.bucket;
    owns = u.owns;
    marked =
        header_kept a (λ q c e. header_of_used u a q c (omega arith) (omega arith) e) ∙ u.marked;
    index =
        header_kept (a + 1) (λ q c e. header_of_used u (a + 1) q c (omega arith) (omega arith) e)
        ∙ u.index;
  }

  -- On a well-formed heap, writes of bytes behind the headers of blocks in use leave the heap
  -- well formed with the same owners and lists.
  pub payload-IsHeap : IsHeap brk (record h { mem = m }) ow len
  payload-IsHeap = record {
    bytes = bytes;
    page = inv.page;
    chains = λ b lt.
        Chain-frame inv.page h.mem m ow ow b (len b) (h.nextf b)
          (λ x a k e l. (header_kept x (λ q c f. absurd (cc)), refl)) (inv.chains b lt);
    used = λ x a b e. kept-IsUsed (inv.used x a b e);
    inside = inv.inside;
    above = λ x l. (
      (inv.above x l).0,
      header_kept x (λ q c f. let nobody = (inv.above x l).0 in cc) ∙ (inv.above x l).1,
    );
    top = inv.top;
    brk_aligned = inv.brk_aligned;
    brk_pos = inv.brk_pos;
  }

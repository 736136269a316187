-- ===== src/Kmalloc/Layout/Switch.antt =====
-- One block of the heap of kmalloc/original/kmalloc.c changes hands: between a free list and the
-- program. Nothing outside the block changes but the head of one list.
use challenges.Common.{
  ℕ, ◌+◌, ◌≤◌, ◌<◌, ◌≡◌, ◌≢◌, ◌∙◌, sym, false, arith, ◌==◌, Bool-cases, ==-ne, inl, inr, subst,
}
use challenges.Memory.{Mem, IsBytes, within}
use challenges.Memory.Laws.{Outside}
use challenges.Kmalloc.{Heap, nbuckets, update}
use challenges.Kmalloc.Buckets.{block_size, block_size-ge, bucket_size-ge, last_bucket}
use challenges.Kmalloc.Layout.{
  Owner, unowned, free_block, used_block, Owners, claim, Owns, Chain, Chain-frame, IsUsed, IsHeap,
}

pub within→Outside : (a n x : ℕ) → within a n x ≡ false → Outside a n x
within→Outside a n x h = ground arith

-- A byte whose owner is not the one that gives way keeps its value and its owner.
pub claim-spares :
    {m m' : Mem} (ow : Owners) (a n : ℕ) (o o' : Owner)
    → Owns ow a n o
    → ((x : ℕ) → Outside a n x → m' x ≡ m x)
    → (x : ℕ) → ow x ≢ o
    → (m' x ≡ m x) × (claim ow a n o' x ≡ ow x)
claim-spares ow a n o o' owns same x other = elim (Bool-cases (within a n x)) [
  | inl i ↦ absurd (other (owns x (ground arith) (ground arith)))
  | inr out ↦ (same x (within→Outside a n x out), rw out)
]

pub claim_self : (ow : Owners) (a n : ℕ) (o : Owner) → Owns (claim ow a n o) a n o
claim_self ow a n o x l r = ground arith

pub IsUsed-frame :
    {pagesz : ℕ} {m m' : Mem} {ow ow' : Owners} {a b : ℕ}
    → 8 ≤ block_size pagesz b
    → ((x : ℕ) → ow x ≡ used_block a b → (m' x ≡ m x) × (ow' x ≡ ow x))
    → IsUsed pagesz m ow a b
    → IsUsed pagesz m' ow' a b
IsUsed-frame {a} {b} big same u = record {
  place = u.place;
  bucket = u.bucket;
  owns = λ x l r. (same x (u.owns x l r)).1 ∙ u.owns x l r;
  marked = (same a (u.owns a (omega arith) (omega arith))).0 ∙ u.marked;
  index = (same (a + 1) (u.owns (a + 1) (omega arith) (omega arith))).0 ∙ u.index;
}

module _ {W : Type 0} (brk : W → ℕ) (h : Heap W) (ow : Owners) (len : ℕ → ℕ)
    (inv : IsHeap brk h ow len) (a b n : ℕ) (in_use : b < last_bucket) (o o' : Owner) (m' : Mem)
    (head : ℕ) (owns : Owns ow a (block_size h.pagesz b) o)
    (gives : (q c k : ℕ) → o ≡ free_block q c k → c ≡ b)
    (was : (q c : ℕ) → o ≡ used_block q c → (q ≡ a) × (c ≡ b)) (taken : o ≢ unowned)
    (bytes : IsBytes m') (same : (x : ℕ) → Outside a (block_size h.pagesz b) x → m' x ≡ h.mem x)
    (chain : Chain h.pagesz m' (claim ow a (block_size h.pagesz b) o') b n head)
    (now : (q c : ℕ)
      → o' ≡ used_block q c
      → (q ≡ a) × (c ≡ b) × IsUsed h.pagesz m' (claim ow a (block_size h.pagesz b) o') q c) where
  abbrev size : ℕ
  size = block_size h.pagesz b

  abbrev after : Owners
  after = claim ow a size o'

  spares : (x : ℕ) → ow x ≢ o → (m' x ≡ h.mem x) × (after x ≡ ow x)
  spares = claim-spares ow a size o o' owns same

  switch-chains :
      (c : ℕ)
      → c < nbuckets
      → Chain h.pagesz m' after c (update len b n c) (update h.nextf b head c)
  switch-chains c lt = elim (Bool-cases (c == b)) [
    | inl e ↦ let e' : c ≡ b = ground arith in rw (e, e') chain
    | inr ne ↦ rw ne (
        Chain-frame inv.page h.mem m' ow after c (len c) (h.nextf c)
          (λ x q k e lt. spares x (λ s. absurd (ground (arith, gives q c k (sym s ∙ e)))))
          (inv.chains c lt))
  ]

  -- The owner that gives way is no block with a byte elsewhere.
  elsewhere : (x q c : ℕ) → within a size x ≡ false → ow x ≡ used_block q c → o ≢ used_block q c
  elsewhere x q c out e s =
      let (at_a, at_b) = was q c s in
      let (l, r) = inv.inside x q c e in
      let r' : x < a + size = subst (λ k. x < a + block_size h.pagesz k) at_b (omega arith) in
      ground arith

  switch-IsUsed : (x q c : ℕ) → after x ≡ used_block q c → IsUsed h.pagesz m' after q c
  switch-IsUsed x q c e = elim (Bool-cases (within a size x)) [
    | inl i ↦ (now q c (rw i at e)).2
    | inr out ↦
        let old : ow x ≡ used_block q c = rw out at e in
        IsUsed-frame (omega (arith, block_size-ge inv.page c, bucket_size-ge c))
          (λ y f. spares y λ s. elsewhere x q c out old (sym s ∙ f)) (inv.used x q c old)
  ]

  switch-inside : (x q c : ℕ) → after x ≡ used_block q c → (q ≤ x) × (x < q + block_size h.pagesz c)
  switch-inside x q c e = elim (Bool-cases (within a size x)) [
    | inl i ↦
        let (at_a, at_b, u) = now q c (rw i at e) in rw (at_a, at_b) (ground arith, ground arith)
    | inr out ↦ inv.inside x q c (rw out at e)
  ]

  pub switch-IsHeap :
      IsHeap brk (record h { mem = m'; nextf = update h.nextf b head }) after (update len b n)
  switch-IsHeap = record {
    bytes = bytes;
    page = inv.page;
    chains = switch-chains;
    used = switch-IsUsed;
    inside = switch-inside;
    above = λ x l.
        let (nobody, blank) = inv.above x l in
        let (m, w) = spares x (λ s. taken (sym s ∙ nobody)) in (w ∙ nobody, m ∙ blank);
    top = λ c l. rw (==-ne c b (λ s. absurd (omega arith))) (inv.top c l);
    brk_aligned = inv.brk_aligned;
    brk_pos = inv.brk_pos;
  }

-- ===== src/Kmalloc/Free.antt =====
-- `kfree` of kmalloc/original/kmalloc.c on blocks in use, on free ones and on NULL.
use challenges.Common.{ℕ, zero, suc, ◌+◌, ◌%◌, ◌^◌, ◌≤◌, ◌<◌, ◌≡◌, ◌≢◌, refl, ◌∙◌, some, arith}
use challenges.Memory.{null, store_pointer}
use challenges.Memory.Laws.{
  Outside, store_pointer-IsBytes, store_pointer-Outside, load_pointer-store_pointer,
  store_pointer-low,
}
use challenges.Memory.Words.{sub64, sub64_of_le}
use challenges.Kmalloc.{Heap, magic, nbuckets, overhead_size, update, kfree}
use challenges.Kmalloc.Buckets.{block_size, block_size-ge, bucket_size-ge}
use challenges.Kmalloc.Layout.{
  free_block, used_block, Owners, claim, Chain, Chain-frame, IsUsed, IsHeap,
}
use challenges.Kmalloc.Layout.Switch.{claim-spares, claim_self, switch-IsHeap}

-- The pointer that `kmalloc` returned for the block at `a`.
abbrev pub data_of : ℕ → ℕ
data_of a = a + overhead_size

pub header_of : (a : ℕ) → a + overhead_size < 2 ^ 64 → sub64 (data_of a) overhead_size ≡ a
header_of a h = sub64_of_le (a + 8) 8 h (omega arith) ∙ omega arith

-- The heap with the block at `a` in front of the list of bucket `b`.
abbrev pub freed : {W : Type 0} → Heap W → (a b : ℕ) → Heap W
freed h a b = record h { mem = store_pointer h.mem a (h.nextf b); nextf = update h.nextf b a }

module _ {W : Type 0} (h : Heap W) (a : ℕ) (small : a + overhead_size < 2 ^ 64) where
  pub kfree-marked :
      (b : ℕ)
      → h.mem a ≡ magic
      → h.mem (a + 1) ≡ b
      → b < nbuckets
      → kfree (data_of a) h ≡ some (freed h a b)
  unfolding kfree
  kfree-marked b m i lt = rw (header_of a small, m, i) (ground arith)

  pub kfree-unmarked : h.mem a ≢ magic → kfree (data_of a) h ≡ some h
  unfolding kfree
  kfree-unmarked m = rw (header_of a small) (ground arith)

module _ {W : Type 0} {brk : W → ℕ} {h : Heap W} {ow : Owners} {len : ℕ → ℕ}
    (inv : IsHeap brk h ow len) where
  pub Chain-lt : (b n p : ℕ) → Chain h.pagesz h.mem ow b n p → (p < 2 ^ 63) × (p % 8 ≡ 0)
  Chain-lt b zero p c = ground arith
  Chain-lt b (suc n) p (place, own, rest) =
      (omega (arith, place.below, block_size-ge inv.page b, bucket_size-ge b), place.aligned)

  module _ (a b : ℕ) (e : ow a ≡ used_block a b) where
    u : IsUsed h.pagesz h.mem ow a b
    u = inv.used a a b e

    abbrev pub size : ℕ
    size = block_size h.pagesz b

    room : a + overhead_size ≤ a + size
    room = omega (arith, block_size-ge inv.page b, bucket_size-ge b)

    pub small : a + overhead_size < 2 ^ 64
    small = omega (arith, room, u.place.below)

    abbrev pub owners_after : Owners
    owners_after = claim ow a size (free_block a b (len b))

    in_range : b < nbuckets
    in_range = omega (arith, u.bucket)

    head_lt : (h.nextf b < 2 ^ 63) × (h.nextf b % 8 ≡ 0)
    head_lt = Chain-lt b (len b) (h.nextf b) (inv.chains b in_range)

    same : (x : ℕ) → Outside a size x → store_pointer h.mem a (h.nextf b) x ≡ h.mem x
    same x out = store_pointer-Outside h.mem a (h.nextf b) x (ground (arith, room))

    freed-Chain : Chain h.pagesz (store_pointer h.mem a (h.nextf b)) owners_after b (suc (len b)) a
    freed-Chain = (
      u.place,
      claim_self ow a size (free_block a b (len b)),
      rw (load_pointer-store_pointer h.mem a (h.nextf b) (omega (arith, head_lt))) (
          Chain-frame inv.page h.mem _ ow owners_after b (len b) (h.nextf b)
            (λ x q k f lt. claim-spares ow a size (used_block a b) _ u.owns same x (λ s. cc))
            (inv.chains b in_range)),
    )

    -- On a well-formed heap `kfree` of a block in use puts the block in front of the list of
    -- its bucket, and the heap stays well formed with that block as the only one to change
    -- hands.
    pub kfree-IsHeap :
        (kfree (data_of a) h ≡ some (freed h a b))
        × IsHeap brk (freed h a b) owners_after (update len b (suc (len b)))
    kfree-IsHeap = (
      kfree-marked h a small b u.marked u.index in_range,
      switch-IsHeap brk h ow len inv a b (suc (len b)) u.bucket (used_block a b)
          (free_block a b (len b)) (store_pointer h.mem a (h.nextf b)) a u.owns (λ q c k s. cc)
          (λ q c s. ground arith) (λ s. cc) (store_pointer-IsBytes a (h.nextf b) inv.bytes) same
          freed-Chain (λ q c s. cc),
    )

    -- Another block in use is as it was.
    pub freed-spares :
        (x q c : ℕ)
        → ow x ≡ used_block q c
        → q ≢ a
        → ((freed h a b).mem x ≡ h.mem x) × (owners_after x ≡ used_block q c)
    freed-spares x q c f ne =
        let (m, o) =
          claim-spares {m = h.mem} {m' = (freed h a b).mem} ow a size (used_block a b)
            (free_block a b (len b)) u.owns same x (λ s. let start : q ≡ a = cc in ne start) in
        (m, o ∙ f)

    -- The link has taken the place of the magic number.
    pub freed-unmarked : (freed h a b).mem a ≢ magic
    freed-unmarked s = absurd (omega (arith, store_pointer-low h.mem a (h.nextf b), head_lt, s))

    -- On a well-formed heap a second `kfree` of a block that was in use before the first one
    -- finds the link in place of the magic number, and does nothing.
    pub kfree-kfree :
        (h' : Heap W) × (kfree (data_of a) h ≡ some h') × (kfree (data_of a) h' ≡ some h')
    kfree-kfree = (
      freed h a b,
      kfree-marked h a small b u.marked u.index in_range,
      kfree-unmarked (freed h a b) a small freed-unmarked,
    )

-- `kfree (NULL)` does nothing.
pub kfree-null : {W : Type 0} (h : Heap W) → kfree null h ≡ some h
unfolding kfree
kfree-null h = refl

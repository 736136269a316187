-- ===== src/Kmalloc/Take.antt =====
-- The end of `kmalloc` (kmalloc/original/kmalloc.c): the first free block of a bucket is unlinked.
use challenges.Common.{ℕ, suc, ◌+◌, ◌≤◌, ◌<◌, ◌≡◌, ◌≢◌, refl, ◌∙◌, arith, subst, dec_lt}
use challenges.Memory.{Mem, put, load_pointer}
use challenges.Memory.Laws.{Outside, put-IsBytes, put_self, put_ne}
use challenges.Memory.Words.{add64_of_lt}
use challenges.Kmalloc.{Os, Heap, magic, overhead_size, update, take_block}
use challenges.Kmalloc.Buckets.{block_size, block_size-ge, bucket_size-ge, last_bucket}
use challenges.Kmalloc.Layout.{
  free_block, used_block, Owners, claim, Owns, Chain, Chain-frame, IsUsed, IsHeap,
}
use challenges.Kmalloc.Layout.Switch.{claim-spares, claim_self, switch-IsHeap}

-- The header after the two bytes are written.
marks : Mem → ℕ → ℕ → Mem
marks m a b = put (put m a magic) (a + 1) b

marks-outside : (m : Mem) (a b x : ℕ) → x ≢ a → x ≢ a + 1 → marks m a b x ≡ m x
unfolding marks
marks-outside m a b x p q = put_ne (put m a magic) (a + 1) b x q ∙ put_ne m a magic x p

marks-magic : (m : Mem) (a b : ℕ) → marks m a b a ≡ magic
unfolding marks
marks-magic m a b = put_ne (put m a magic) (a + 1) b a (omega arith) ∙ put_self m a magic

marks-index : (m : Mem) (a b : ℕ) → b < 256 → marks m a b (a + 1) ≡ b
unfolding marks
marks-index m a b h = put_self (put m a magic) (a + 1) b ∙ omega arith

-- What taking a block does: `start` was the first of the `suc behind` free blocks of bucket `b`, and is in use.
pub record IsTaken {W : Type 0} (brk : W → ℕ) (h : Heap W) (ow : Owners) (len : ℕ → ℕ)
    (b start behind p : ℕ) (h' : Heap W) : Type 0 where
  pub pointer : p ≡ start + overhead_size
  pub heap :
      IsHeap brk h'
        (claim ow start (block_size h.pagesz b) (used_block start b))
        (update len b behind)
  pub was_free : Owns ow start (block_size h.pagesz b) (free_block start b behind)
  pub kept : (x : ℕ) → x ≢ start → x ≢ start + 1 → h'.mem x ≡ h.mem x
  pub first : h.nextf b ≡ start
  pub same_page : h'.pagesz ≡ h.pagesz

module _ {W : Type 0} (os : Os W) {brk : W → ℕ} {h : Heap W} {ow : Owners} {len : ℕ → ℕ}
    (inv : IsHeap brk h ow len) (b n : ℕ) (le : b ≤ last_bucket) (some_free : len b ≡ suc n) where
  abbrev pub a : ℕ
  a = h.nextf b

  abbrev pub size : ℕ
  size = block_size h.pagesz b

  below : b < last_bucket
  below = elim (dec_lt b last_bucket) [
    | yes lt ↦ lt
    | no last ↦ absurd (omega (arith, inv.top b (omega arith)))
  ]

  front : Chain h.pagesz h.mem ow b (suc n) a
  front = subst (λ k. Chain h.pagesz h.mem ow b k a) some_free (inv.chains b (omega arith))

  abbrev pub owners_after : Owners
  owners_after = claim ow a size (used_block a b)

  room : overhead_size ≤ size
  room = omega (arith, block_size-ge inv.page b, bucket_size-ge b)

  same : (x : ℕ) → Outside a size x → marks h.mem a b x ≡ h.mem x
  same x out = marks-outside h.mem a b x (ground (arith, room)) (ground (arith, room))

  taken-IsUsed : IsUsed h.pagesz (marks h.mem a b) owners_after a b
  taken-IsUsed = record {
    place = front.0;
    bucket = below;
    owns = claim_self ow a size (used_block a b);
    marked = marks-magic h.mem a b;
    index = marks-index h.mem a b (omega arith);
  }

  rest-Chain : Chain h.pagesz (marks h.mem a b) owners_after b n (load_pointer h.mem a)
  rest-Chain =
      Chain-frame inv.page h.mem (marks h.mem a b) ow owners_after b n (load_pointer h.mem a)
        (λ x q k f lt.
          claim-spares ow a size (free_block a b n) _ front.1 same x (λ s. absurd (ground arith)))
        front.2

  now :
      (q c : ℕ)
      → used_block a b ≡ used_block q c
      → (q ≡ a) × (c ≡ b) × IsUsed h.pagesz (marks h.mem a b) owners_after q c
  now q c s =
      let at_a : q ≡ a = cc in let at_b : c ≡ b = cc in (at_a, at_b, rw (at_a, at_b) taken-IsUsed)

  pub take_block-IsTaken : IsTaken brk h ow len b a n (take_block os b h).0 (take_block os b h).1
  unfolding take_block marks
  take_block-IsTaken = record {
    pointer = add64_of_lt a overhead_size (omega (arith, (front.0).below, room));
    heap =
        switch-IsHeap brk h ow len inv a b n below (free_block a b n) (used_block a b)
          (marks h.mem a b) (load_pointer h.mem a) front.1 (λ q c k s. cc) (λ q c s. cc) (λ s. cc)
          (put-IsBytes (a + 1) b (put-IsBytes a magic inv.bytes)) same rest-Chain now;
    was_free = front.1;
    kept = marks-outside h.mem a b;
    first = refl;
    same_page = refl;
  }

-- ===== src/Kmalloc/Layout.antt =====
-- Who owns each byte of the heap of kmalloc/original/kmalloc.c, and the invariant that ties the free
-- lists, the headers and the break to it. The owners are ghost state: the code keeps no such map.
pub mod Payload
pub mod Switch
use challenges.Common.{
  ℕ, zero, suc, ◌+◌, ◌%◌, ◌^◌, ◌≤◌, ◌<◌, ◌≡◌, ◌≢◌, refl, ◌∙◌, sym, Bool, if◌then◌else◌, arith,
}
use challenges.Memory.{Mem, IsBytes, load_pointer, within}
use challenges.Memory.Laws.{load_pointer-cong}
use challenges.Kmalloc.{Heap, magic, nbuckets, overhead_size}
use challenges.Kmalloc.Buckets.{IsPage, block_size, block_size-ge, bucket_size-ge, last_bucket}

-- A byte is part of no block, of the free block at `start`, the one with `rank` blocks behind it in
-- the list of `bucket`, or of the block at `start` that is in use.
pub data Owner : Type 0 where
  unowned : Owner
  free_block : (start bucket rank : ℕ) → Owner
  used_block : (start bucket : ℕ) → Owner

abbrev pub Owners : Type 0
Owners = ℕ → Owner

-- The `n` bytes from `a` go to `o`.
abbrev pub claim : Owners → (a n : ℕ) → Owner → Owners
claim ow a n o x = if within a n x then o else ow x

abbrev pub Owns : Owners → (a n : ℕ) → Owner → Type 0
Owns ow a n o = (x : ℕ) → a ≤ x → x < a + n → ow x ≡ o

-- A block of `bucket` may stand at `a`.
pub record IsPlace (pagesz bucket a : ℕ) : Type 0 where
  pub not_null : a ≢ 0
  pub aligned : a % 8 ≡ 0
  pub below : a + block_size pagesz bucket ≤ 2 ^ 63

-- From `p` the `ov_next` pointers lead through `n` free blocks of the bucket to NULL.
abbrev pub Chain : (pagesz : ℕ) → Mem → Owners → (bucket n p : ℕ) → Type 0
Chain pagesz m ow b zero p = p ≡ 0
Chain pagesz m ow b (suc n) p =
    IsPlace pagesz b p
    × Owns ow p (block_size pagesz b) (free_block p b n)
    × Chain pagesz m ow b n (load_pointer m p)

-- The block at `a` is in use: its header says so, and its bytes are its own.
pub record IsUsed (pagesz : ℕ) (m : Mem) (ow : Owners) (a b : ℕ) : Type 0 where
  pub place : IsPlace pagesz b a
  pub bucket : b < last_bucket
  pub owns : Owns ow a (block_size pagesz b) (used_block a b)
  pub marked : m a ≡ magic
  pub index : m (a + 1) ≡ b

pub record IsHeap {W : Type 0} (brk : W → ℕ) (h : Heap W) (ow : Owners) (len : ℕ → ℕ) : Type 0 where
  pub bytes : IsBytes h.mem
  pub page : IsPage h.pagesz h.pagebucket
  pub chains : (b : ℕ) → b < nbuckets → Chain h.pagesz h.mem ow b (len b) (h.nextf b)
  pub used : (x a b : ℕ) → ow x ≡ used_block a b → IsUsed h.pagesz h.mem ow a b
  pub inside : (x a b : ℕ) → ow x ≡ used_block a b → (a ≤ x) × (x < a + block_size h.pagesz b)
  pub above : (x : ℕ) → brk h.world ≤ x → (ow x ≡ unowned) × (h.mem x ≡ 0)
  pub top : (b : ℕ) → last_bucket ≤ b → len b ≡ 0
  pub brk_aligned : brk h.world % 8 ≡ 0
  pub brk_pos : 0 < brk h.world

-- A chain lives on where the bytes of its blocks, and their owners, stay.
pub Chain-frame :
    {pagesz pagebucket : ℕ} (page : IsPage pagesz pagebucket) (m m' : Mem) (ow ow' : Owners)
    (b n p : ℕ)
    → ((x a k : ℕ) → ow x ≡ free_block a b k → k < n → (m' x ≡ m x) × (ow' x ≡ ow x))
    → Chain pagesz m ow b n p
    → Chain pagesz m' ow' b n p
Chain-frame page m m' ow ow' b zero p same chain = chain
Chain-frame {pagesz} page m m' ow ow' b (suc n) p same (place, own, rest) = (
  place,
  λ x l r. (same x p n (own x l r) (omega arith)).1 ∙ own x l r,
  rw link (
      Chain-frame page m m' ow ow' b n (load_pointer m p) (λ x a k e l. same x a k e (omega arith))
        rest),
)
  where
    link : load_pointer m' p ≡ load_pointer m p
    link = load_pointer-cong m' m p λ q l r.
        (same q p n (own q l (omega (arith, block_size-ge page b, bucket_size-ge b)))
          (omega arith)).0

-- ===== src/Kmalloc/Resize/Overflow.antt =====
-- `kcalloc` of kmalloc/original/kmalloc.c where the product of its arguments wraps.
use challenges.Common.{ℕ, ◌*◌, ◌%◌, ◌^◌, ◌≤◌, ◌<◌, ◌≡◌, some}
use challenges.Kmalloc.{Os, IsOs, Heap}
use challenges.Kmalloc.Buckets.{block_size}
use challenges.Kmalloc.Layout.{Owners, IsHeap}
use challenges.Kmalloc.Resize.{kcalloc}
use challenges.Kmalloc.Resize.Calloc.{IsCleared, kcalloc-short}
use challenges.Kmalloc.Run.Resizing.{kcalloc-some-IsCleared}

-- On a well-formed heap, where the product of the arguments is 2 ^ 64 or more and `kcalloc`
-- returns, what it returns is a new block of zeros for the product modulo 2 ^ 64, whose whole block
-- is smaller than the product.
pub kcalloc-overflow :
    {W : Type 0} (os : Os W) {brk : W → ℕ} (is_os : IsOs os brk) {h h' : Heap W} {ow : Owners}
    {len : ℕ → ℕ} (inv : IsHeap brk h ow len) (nelem elsize p : ℕ)
    → 2 ^ 64 ≤ nelem * elsize
    → kcalloc os nelem elsize h ≡ some (p, h')
    → (c : IsCleared brk h ow (nelem * elsize % 2 ^ 64) p h') × (block_size h.pagesz
          (c.fresh).bucket
        < nelem * elsize)
kcalloc-overflow os is_os inv nelem elsize p big e =
    let c = kcalloc-some-IsCleared os is_os inv nelem elsize p e in
    (c, kcalloc-short os is_os inv nelem elsize big c)

-- ===== src/Kmalloc/Run/Answers.antt =====
-- What a program that uses kmalloc/original/kmalloc.c can always call.
use challenges.Common.{
  ℕ, ◌+◌, ◌-◌, ◌≤◌, ◌<◌, ◌≡◌, sym, ap, ◌∙◌, none, some, inl, inr, ◌⊎◌, arith, Option-cases, subst,
}
use challenges.Kmalloc.{Os, IsOs, Heap, kmalloc, kfree, kmalloc_usable_size, overhead_size}
use challenges.Kmalloc.Reuse.{usable_size-bucket}
use challenges.Kmalloc.Buckets.{block_size}
use challenges.Kmalloc.Free.{kfree-kfree}
use challenges.Kmalloc.Resize.{krealloc}
use challenges.Kmalloc.Resize.Cases.{krealloc-answer}
use challenges.Kmalloc.Run.{Live, Reach}
use challenges.Kmalloc.Run.Start.{IsStart, start-IsRun, start-answered}

module _ {W : Type 0} (os : Os W) {brk : W → ℕ} (is_os : IsOs os brk) where
  module _ {h0 : Heap W} (start : IsStart os is_os h0) where
    -- What a pointer that is held is good for.
    held-answered :
        {h : Heap W} {live : Live} (p n nbytes fuel srchlen : ℕ)
        → Reach os h0 h live
        → live p ≡ some n
        → ((q : ℕ) × (h' : Heap W) × (krealloc os fuel srchlen p nbytes h ≡ some (q, h')))
          × ((h' : Heap W) × (kfree p h ≡ some h') × (kfree p h' ≡ some h'))
          × ((b : ℕ) × (kmalloc_usable_size p h ≡ b)
              × (n + overhead_size ≤ block_size h.pagesz b)
              × ((b ≡ 0) ⊎ (b < block_size h.pagesz b - overhead_size)))
    held-answered {h} p n nbytes fuel srchlen r holds =
        let run = start-IsRun os is_os start r p n holds in
        let b = run.held p n holds in
        let size = usable_size-bucket os run.heap b.start b.bucket b.owner in
        let resize = krealloc-answer os is_os fuel srchlen run.heap b.owner nbytes in
        (
          (
            resize.0.0,
            resize.0.1,
            ap (λ t. krealloc os fuel srchlen t nbytes h) b.pointer ∙ resize.1,
          ),
          subst (λ t. (g : Heap W) × (kfree t h ≡ some g) × (kfree t g ≡ some g)) (sym b.pointer)
              (kfree-kfree run.heap b.start b.bucket b.owner),
          (
            b.bucket,
            ap (λ t. kmalloc_usable_size t h) b.pointer ∙ size.0,
            b.room,
            less _ b.bucket (block_size h.pagesz b.bucket - overhead_size) size,
          ),
        )
      where
        less :
            (v bucket bytes : ℕ)
            → (v ≡ bucket) × ((bucket ≡ 0) ⊎ (v < bytes))
            → (bucket ≡ 0) ⊎ (bucket < bytes)
        less v bucket bytes (e, inl first) = inl first
        less v bucket bytes (e, inr under) = inr (omega (arith, e, under))

    -- From a well-formed heap with no block in use, or from the static variables as they are
    -- loaded, where the memory above the break is zero, the page size is a power of two and
    -- `sbrk` has memory to align the break, after a run of a program that calls `kmalloc`,
    -- `kcalloc`, `krealloc` and `kfree`, frees and resizes only pointers it holds, writes only
    -- bytes it asked for and calls `kcalloc` only for a product below 2 ^ 64, a request of any
    -- size is answered, with a pointer or NULL, with `1 << 31` on an `int` as the negative
    -- number that compilers make of it; a pointer that the program holds can be resized to any
    -- size, with a pointer or NULL, and can be freed, where a second call that frees it does
    -- nothing, and `kmalloc_usable_size` of it is the number of a bucket whose blocks hold what
    -- was asked for, which is less than the bytes it could tell for every bucket but the first.
    pub Reach-answered :
        {h : Heap W} {live : Live} (p nbytes fuel srchlen : ℕ)
        → Reach os h0 h live
        → ((q : ℕ) × (h' : Heap W) × (kmalloc os nbytes h ≡ some (q, h')))
          × ((live p ≡ none)
              ⊎ ((n : ℕ) × (live p ≡ some n)
                  × ((q : ℕ) × (h' : Heap W) × (krealloc os fuel srchlen p nbytes h ≡ some (q, h')))
                  × ((h' : Heap W) × (kfree p h ≡ some h') × (kfree p h' ≡ some h'))
                  × ((b : ℕ) × (kmalloc_usable_size p h ≡ b)
                      × (n + overhead_size ≤ block_size h.pagesz b)
                      × ((b ≡ 0) ⊎ (b < block_size h.pagesz b - overhead_size)))))
    Reach-answered {live = live} p nbytes fuel srchlen r = (
      start-answered os is_os nbytes start r,
      elim (Option-cases (live p)) [
        | inl free ↦ inl free
        | inr (n, holds) ↦
            let (resize, release, size) = held-answered p n nbytes fuel srchlen r holds in
            inr (n, holds, resize, release, size)
      ],
    )

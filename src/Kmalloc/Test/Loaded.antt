-- ===== src/Kmalloc/Test/Loaded.antt =====
-- The program of kmalloc/original/tests/main.c from where it starts.
use challenges.Common.{ℕ, ◌≡◌, ◌≢◌, refl, ap, ◌∙◌, none, some, arith, inl, inr, ◌⊎◌, Option-cases}
use challenges.Memory.{null}
use challenges.Kmalloc.{Os, IsOs, Heap, kmalloc, overhead_size}
use challenges.Kmalloc.Buckets.{IsPage}
use challenges.Kmalloc.Layout.{Owners, IsHeap}
use challenges.Kmalloc.First.{IsInitial, kmalloc-IsServed, kmalloc-first}
use challenges.Kmalloc.Test.{main, lines, marked, second-ne, main-lines, marked-IsHeap}

module _ {W : Type 0} (os : Os W) {brk : W → ℕ} (is_os : IsOs os brk) {pagebucket : ℕ}
    (page : IsPage os.page_size pagebucket) {h : Heap W} (init : IsInitial brk h) where
  -- Where the first call returns NULL the second one makes no difference.
  main-refused : (h1 : Heap W) → kmalloc os overhead_size h ≡ some (null, h1) → main os h ≡ none
  unfolding main
  main-refused h1 e = elim (Option-cases (kmalloc os overhead_size h1)) [
    | inl undefined ↦ rw (e, undefined) refl
    | inr (r, second) ↦ rw (e, second) refl
  ]

  -- From the static variables as they are loaded, with a page size that is a power of two and
  -- memory that is zero above the break, the test program writes through NULL where its first
  -- request is refused; else its second request is answered with another pointer or NULL, it
  -- shows that pointer, the same pointer with its two lowest bytes replaced by the mark, and the
  -- two bytes of the mark, and it leaves a well-formed heap.
  pub main-shown :
      ((h1 : Heap W) × (kmalloc os overhead_size h ≡ some (null, h1)) × (main os h ≡ none))
      ⊎ ((ov : ℕ) × (second : ℕ) × (h1 : Heap W) × (h2 : Heap W) × (h' : Heap W) × (kmalloc os
              overhead_size h
            ≡ some (ov, h1))
          × (kmalloc os overhead_size h1 ≡ some (second, h2))
          × (second ≢ ov)
          × (main os h ≡ some (lines second, h'))
          × (ow' : Owners) × (len' : ℕ → ℕ) × IsHeap brk h' ow' len')
  main-shown = elim (kmalloc-first os is_os page init overhead_size) [
    | inr (e, failed) ↦ inl (_, e, main-refused _ e)
    | inl (w, inv, (ov, h1, e1, s1)) ↦ elim s1.answer [
      | inr (none_left, why) ↦
          let e = e1 ∙ ap (λ p. some (p, h1)) none_left in inl (h1, e, main-refused h1 e)
      | inl fresh ↦
          let (second, h2, e2, s2) = kmalloc-IsServed os is_os s1.heap overhead_size in
          let real : ov ≢ null = λ z. absurd (omega (arith, z, fresh.pointer)) in
          inr (
            ov,
            second,
            h1,
            h2,
            record h2 { mem = marked os is_os inv s1 fresh s2 },
            e1,
            e2,
            second-ne os is_os inv s1 fresh s2 real,
            main-lines os is_os inv s1 fresh s2 h e1 e2 real,
            s2.owners,
            s2.lengths,
            marked-IsHeap os is_os inv s1 fresh s2,
          )
    ]
  ]

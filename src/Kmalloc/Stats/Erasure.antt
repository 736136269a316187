-- ===== src/Kmalloc/Stats/Erasure.antt =====
-- The build of kmalloc/original/kmalloc.c with MSTATS does to the heap what the other one does.
use challenges.Common.{
  ℕ, ◌*◌, ◌%◌, ◌^◌, ◌≡◌, refl, true, false, Option, none, some, leb, ◌==◌, if◌then◌else◌, ◌>>=◌,
  inl, inr, Bool-cases, Option-cases, arith,
}
use challenges.Memory.{null}
use challenges.Memory.Words.{sub64}
use challenges.Kmalloc.{
  Os, Heap, nbuckets, overhead_size, magic, ov_index, ov_magic, choose_bucket, setup, morecore,
  obtain_block, serve, kmalloc, kfree,
}
use challenges.Kmalloc.Resize.{kcalloc, move, krealloc, old_size, stays, free_bucket}
use challenges.Kmalloc.Stats.{
  Stats, stats_obtain_block, stats_serve, stats_kmalloc, stats_kfree, stats_kcalloc, stats_move,
  stats_krealloc,
}

-- Without the counters.
abbrev pub erased : {W : Type 0} → Option (ℕ × Stats W) → Option (ℕ × Heap W)
erased none = none
erased (some (p, s)) = some (p, s.heap)

abbrev pub erased_state : {W : Type 0} → Option (Stats W) → Option (Heap W)
erased_state none = none
erased_state (some s) = some s.heap

module _ {W : Type 0} (os : Os W) where
  stats_obtain_block-erased :
      (b : ℕ) (s : Stats W) → erased (stats_obtain_block os b s) ≡ obtain_block os b s.heap
  unfolding stats_obtain_block obtain_block
  stats_obtain_block-erased b s = elim (Bool-cases (leb nbuckets b)) [
    | inl outside ↦ rw outside refl
    | inr inside ↦ elim (Bool-cases (s.heap.nextf b == null)) [
      | inr full ↦ rw (inside, full) refl
      | inl empty ↦
          rw (inside, empty)
            (elim (Option-cases (morecore os b s.heap)) [
              | inl undefined ↦ rw undefined refl
              | inr (h, e) ↦ rw e (elim (Bool-cases (h.nextf b == null)) [
                | inl still ↦ rw still refl
                | inr grown ↦ rw grown refl
              ])
            ])
    ]
  ]

  stats_serve-erased :
      (nbytes : ℕ) (s : Stats W) → erased (stats_serve os nbytes s) ≡ serve os nbytes s.heap
  unfolding stats_serve serve
  stats_serve-erased nbytes s =
      elim (Option-cases (choose_bucket s.heap.pagesz s.heap.pagebucket nbytes)) [
        | inl undefined ↦ rw undefined refl
        | inr (none, e) ↦ rw e refl
        | inr (some b, e) ↦ rw e (stats_obtain_block-erased b s)
      ]

  stats_kmalloc-erased :
      (nbytes : ℕ) (s : Stats W) → erased (stats_kmalloc os nbytes s) ≡ kmalloc os nbytes s.heap
  unfolding stats_kmalloc kmalloc
  stats_kmalloc-erased nbytes s = elim (Bool-cases (s.heap.pagesz == 0)) [
    | inr ready ↦ rw ready (stats_serve-erased nbytes s)
    | inl first ↦ rw first (elim (Option-cases (setup os s.heap)) [
      | inl undefined ↦ rw undefined refl
      | inr ((true, h), e) ↦ rw e (stats_serve-erased nbytes (record s { heap = h }))
      | inr ((false, h), e) ↦ rw e refl
    ])
  ]

  stats_kfree-erased : (cp : ℕ) (s : Stats W) → erased_state (stats_kfree cp s) ≡ kfree cp s.heap
  unfolding stats_kfree kfree
  stats_kfree-erased cp s = ground arith

  -- What is done to the result of `kmalloc` afterwards.
  erased-bind :
      (r : Option (ℕ × Stats W)) (r' : Option (ℕ × Heap W)) (f : ℕ × Stats W → Option (ℕ × Stats W))
      (g : ℕ × Heap W → Option (ℕ × Heap W))
      → erased r ≡ r'
      → ((p : ℕ) (s : Stats W) → erased (f (p, s)) ≡ g (p, s.heap))
      → erased (r >>= f) ≡ (r' >>= g)
  erased-bind none r' f g e same = rw (← e) refl
  erased-bind (some (p, s)) r' f g e same = rw (← e) (same p s)

  stats_kcalloc-erased :
      (nelem elsize : ℕ) (s : Stats W)
      → erased (stats_kcalloc os nelem elsize s) ≡ kcalloc os nelem elsize s.heap
  unfolding stats_kcalloc kcalloc
  stats_kcalloc-erased nelem elsize s =
      erased-bind (stats_kmalloc os (nelem * elsize % 2 ^ 64) s) _ _ _
        (stats_kmalloc-erased (nelem * elsize % 2 ^ 64) s)
        (λ p t. elim (Bool-cases (p == null)) [
          | inl refused ↦ rw refused refl
          | inr real ↦ rw real refl
        ])

  stats_move-erased :
      (cp nbytes onb : ℕ) (s : Stats W)
      → erased (stats_move os cp nbytes onb s) ≡ move os cp nbytes onb s.heap
  unfolding stats_move move
  stats_move-erased cp nbytes onb s =
      erased-bind (stats_kmalloc os nbytes s) _ _ _ (stats_kmalloc-erased nbytes s) (λ p t.
        elim (Bool-cases (p == null)) [
          | inl refused ↦ rw refused refl
          | inr real ↦ elim (Bool-cases (cp == p)) [
            | inl same ↦ rw (real, same) refl
            | inr other ↦ rw (real, other) refl
          ]
        ])

  erased_state-bind :
      (r : Option (Stats W)) (r' : Option (Heap W)) (f : Stats W → Option (ℕ × Stats W))
      (g : Heap W → Option (ℕ × Heap W))
      → erased_state r ≡ r'
      → ((s : Stats W) → erased (f s) ≡ g s.heap)
      → erased (r >>= f) ≡ (r' >>= g)
  erased_state-bind none r' f g e same = rw (← e) refl
  erased_state-bind (some s) r' f g e same = rw (← e) (same s)

  stats_krealloc-erased :
      (fuel srchlen cp nbytes : ℕ) (s : Stats W)
      → erased (stats_krealloc os fuel srchlen cp nbytes s)
        ≡ krealloc os fuel srchlen cp nbytes s.heap
  unfolding stats_krealloc krealloc
  stats_krealloc-erased fuel srchlen cp nbytes s = elim (Bool-cases (cp == null)) [
    | inl absent ↦ rw absent (stats_kmalloc-erased nbytes s)
    | inr there ↦ elim (Bool-cases (nbytes == 0)) [
      | inl none_asked ↦
          rw (there, none_asked)
            (erased_state-bind (stats_kfree cp s) _ _ _ (stats_kfree-erased cp s) (λ t. refl))
      | inr asked ↦
          let op : ℕ = sub64 cp overhead_size in
          elim (Bool-cases (ov_magic s.heap.mem op == magic)) [
            | inl marked ↦ rw (there, asked, marked) (in_use op)
            | inr free ↦
                rw (there, asked, free)
                  (elim (Option-cases (free_bucket os fuel srchlen s.heap op)) [
                    | inl undefined ↦ rw undefined refl
                    | inr (j, e) ↦ rw e (elim (Option-cases (old_size s.heap.pagesz j)) [
                      | inl too_far ↦ rw too_far refl
                      | inr (onb, e') ↦ rw e' (stats_move-erased cp nbytes onb s)
                    ])
                  ])
          ]
    ]
  ]
    where
      in_use :
          (op : ℕ)
          → erased (do
            onb ← old_size s.heap.pagesz (ov_index s.heap.mem op)
            if stays s.heap.pagesz (ov_index s.heap.mem op) onb nbytes
                then some (cp, s)
                else (do s' ← stats_kfree cp s; stats_move os cp nbytes onb s'))
            ≡ (do
              onb ← old_size s.heap.pagesz (ov_index s.heap.mem op)
              if stays s.heap.pagesz (ov_index s.heap.mem op) onb nbytes
                  then some (cp, s.heap)
                  else (do h' ← kfree cp s.heap; move os cp nbytes onb h'))
      in_use op = elim (Option-cases (old_size s.heap.pagesz (ov_index s.heap.mem op))) [
        | inl too_far ↦ rw too_far refl
        | inr (onb, e) ↦
            rw e (elim (Bool-cases (stays s.heap.pagesz (ov_index s.heap.mem op) onb nbytes)) [
              | inl keeps ↦ rw keeps refl
              | inr goes ↦ rw goes (
                  erased_state-bind (stats_kfree cp s) _ _ _ (stats_kfree-erased cp s)
                    (λ t. stats_move-erased cp nbytes onb t))
            ])
      ]

  -- `kmalloc`, `kcalloc`, `krealloc` and `kfree` of the build with MSTATS, on any heap and any
  -- counters, have a result exactly where those of the other build have one, the same pointer,
  -- and leave the same heap.
  pub stats-erased :
      (s : Stats W) (fuel srchlen cp nbytes nelem elsize : ℕ)
      → (erased (stats_kmalloc os nbytes s) ≡ kmalloc os nbytes s.heap)
        × (erased (stats_kcalloc os nelem elsize s) ≡ kcalloc os nelem elsize s.heap)
        × (erased (stats_krealloc os fuel srchlen cp nbytes s)
            ≡ krealloc os fuel srchlen cp nbytes s.heap)
        × (erased_state (stats_kfree cp s) ≡ kfree cp s.heap)
  stats-erased s fuel srchlen cp nbytes nelem elsize = (
    stats_kmalloc-erased nbytes s,
    stats_kcalloc-erased nelem elsize s,
    stats_krealloc-erased fuel srchlen cp nbytes s,
    stats_kfree-erased cp s,
  )
